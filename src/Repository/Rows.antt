-- ===== src/Repository/Rows.antt =====
-- The rows of the tables: the structs and enums of internal/repository. An id (int64, handed out
-- by a sequence from 1 on) is only compared; a column with a CHECK (… >= 0) is a natural number.
use Prim.Native.String.{String}
use dragon_market.Base.{ℕ, ◌-◌, Bool, true, false, Option}

pub data ItemRarity : Type 0 where
  common rare legendary : ItemRarity

pub data AuctionStatus : Type 0 where
  active expired : AuctionStatus

pub data ListingStatus : Type 0 where
  active expired : ListingStatus

pub data BidStatus : Type 0 where
  active cancelled won lost : BidStatus

pub data TransactionType : Type 0 where
  purchase reserve release credit auction_win : TransactionType

-- The texts "auction:%d" and "listing:%d" of a transaction's reference.
pub data Reference : Type 0 where
  auction listing : ℕ → Reference

pub record Character : Type 0 where
  pub id : ℕ
  pub name : String
  pub land_of_origin : String
  pub stats : Option String
  pub guild_id : Option ℕ

pub record Guild : Type 0 where
  pub id : ℕ
  pub name : String
  pub leader_character_id : ℕ
  pub land_of_origin : String

pub record Item : Type 0 where
  pub id : ℕ
  pub name : String
  pub land_of_origin : String
  pub rarity : ItemRarity
  pub forger_character_id : ℕ
  pub price : ℕ

pub record Inventory : Type 0 where
  pub id : ℕ
  pub guild_id : ℕ
  pub item_id : ℕ
  pub quantity : ℕ
  pub item_rarity : ItemRarity

pub record GoldPouch : Type 0 where
  pub id : ℕ
  pub guild_id : ℕ
  pub total_balance : ℕ
  pub reserved_balance : ℕ
  pub daily_spending_limit : ℕ
  pub spent_today : ℕ
  pub last_reset_date : ℕ

-- The generated column: total_balance - reserved_balance, where a CHECK keeps the second within
-- the first.
abbrev pub usable_balance : GoldPouch → ℕ
usable_balance gp = gp.total_balance - gp.reserved_balance

pub record Listing : Type 0 where
  pub id : ℕ
  pub item_id : ℕ
  pub guild_id : ℕ
  pub quantity : ℕ
  pub base_price : ℕ
  pub status : ListingStatus

pub record Auction : Type 0 where
  pub id : ℕ
  pub item_id : ℕ
  pub owner_guild_id : ℕ
  pub status : AuctionStatus
  pub start_time : ℕ
  pub end_time : ℕ
  pub base_price : ℕ
  pub item_rarity : ItemRarity

pub record Bid : Type 0 where
  pub id : ℕ
  pub auction_id : ℕ
  pub guild_id : ℕ
  pub amount : ℕ
  pub status : BidStatus
  pub created_at : ℕ

pub record TransactionLog : Type 0 where
  pub id : ℕ
  pub guild_id : ℕ
  pub kind : TransactionType
  pub amount : ℕ
  pub reference : Option Reference
  pub created_at : ℕ

abbrev pub is_legendary : ItemRarity → Bool
is_legendary ItemRarity.legendary = true
is_legendary _ = false

abbrev pub auction_active : AuctionStatus → Bool
auction_active AuctionStatus.active = true
auction_active AuctionStatus.expired = false

abbrev pub listing_active : ListingStatus → Bool
listing_active ListingStatus.active = true
listing_active ListingStatus.expired = false

abbrev pub bid_active : BidStatus → Bool
bid_active BidStatus.active = true
bid_active _ = false
