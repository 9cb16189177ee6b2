-- ===== src/Api.antt =====
-- The HTTP API, internal/api: requests and responses, the context of a request, and the interfaces
-- through which the handlers call the services. Routing by method and path, and the decoding of a
-- JSON body, are gin's: a request comes with what gin has made of it.
pub mod Errors
pub mod Middleware
pub mod Items
pub mod Auctions
pub mod Wallets
pub mod Router
pub mod Answers
pub mod Served
pub mod Refused
pub mod Guards
pub mod Codes
use Prim.Native.String.{String}
use dragon_market.Base.{ℕ, ℤ, pos, negsuc, ◌-◌, ◌^◌, Bool, Option, none, some, List}
use dragon_market.Strconv.{Text}
use dragon_market.Repository.Rows.{ItemRarity, AuctionStatus, BidStatus, ListingStatus, Bid}
use dragon_market.Repository.Db.{Db, Result}
use dragon_market.ItemService.{
  CreateItemInput, CreateItemResult, ItemView, PurchaseInput, PurchaseResult,
}
use dragon_market.Auction.{PlaceBidInput, CancelBidInput}
use dragon_market.Auction.Opening.{CreateAuctionInput, AuctionView}
use dragon_market.Wallet.{WalletView}

-- The rarity of a request is a string like any other.
pub record CreateItemRequest : Type 0 where
  pub name : String
  pub land_of_origin : String
  pub forger_character_id : ℤ
  pub rarity : String
  pub price : Option ℤ
  pub guild_id : Option ℤ
  pub quantity : Option ℤ

pub record PurchaseRequest : Type 0 where
  pub quantity : ℤ

pub record CreateAuctionRequest : Type 0 where
  pub item_id : ℤ
  pub duration_seconds : ℤ

pub record PlaceBidRequest : Type 0 where
  pub amount : ℤ

-- The parameters of the path, the header X-Guild-ID and the query, empty where they are missing,
-- and what the JSON decoder makes of the body for each type of request.
pub record Request : Type 0 where
  pub id : Text
  pub bid_id : Text
  pub guild_header : Text
  pub limit : Text
  pub offset : Text
  pub create_item : Option CreateItemRequest
  pub purchase : Option PurchaseRequest
  pub create_auction : Option CreateAuctionRequest
  pub place_bid : Option PlaceBidRequest

pub record ItemResponse : Type 0 where
  pub id : ℕ
  pub name : String
  pub land_of_origin : String
  pub rarity : ItemRarity
  pub forger_character_id : ℕ
  pub price : ℕ
  pub legendary : Bool
  pub auction_only : Bool

pub record CreateItemResponse : Type 0 where
  pub item : ItemResponse
  pub guild_id : ℕ
  pub quantity : ℕ
  pub listing_id : Option ℕ

pub record PurchaseResponse : Type 0 where
  pub item_id : ℕ
  pub quantity : ℕ
  pub unit_price : ℕ
  pub total_price : ℕ
  pub seller_guild_id : ℕ
  pub listing_id : ℕ
  pub listing_status : ListingStatus

pub record AuctionResponse : Type 0 where
  pub id : ℕ
  pub item_id : ℕ
  pub owner_guild_id : ℕ
  pub status : AuctionStatus
  pub start_time : ℕ
  pub end_time : ℕ
  pub base_price : ℕ

pub record BidResponse : Type 0 where
  pub id : ℕ
  pub auction_id : ℕ
  pub guild_id : ℕ
  pub amount : ℕ
  pub status : BidStatus
  pub created_at : ℕ

pub record WalletResponse : Type 0 where
  pub total_balance : ℕ
  pub reserved_balance : ℕ
  pub usable : ℕ
  pub daily_spending_limit : ℕ
  pub spent_today : ℕ

-- An error's body is its code: its message is not modelled.
pub data Body : Type 0 where
  error : String → Body
  item : ItemResponse → Body
  created_item : CreateItemResponse → Body
  items : List ItemResponse → Body
  purchase : PurchaseResponse → Body
  auction : AuctionResponse → Body
  auctions : List AuctionResponse → Body
  bid : BidResponse → Body
  wallet : WalletResponse → Body
  health empty : Body

pub record Response : Type 0 where
  pub status : ℕ
  pub body : Body

-- gin.Context: the request, and the guild that RequireGuildID has set.
pub record Context : Type 0 where
  pub request : Request
  pub guild : Option ℤ

abbrev pub Handler : Type 0
Handler = Context → Db → Response × Db

-- An id in a row is a natural number, an int64 by its bits: a negative one is past every id that a
-- sequence hands out.
abbrev pub id_of : ℤ → ℕ
id_of (pos n) = n
id_of (negsuc n) = 2 ^ 64 - 1 - n

pub record ItemService : Type 0 where
  pub create_item : CreateItemInput → Db → Result CreateItemResult × Db
  pub get_item : ℕ → Db → Result ItemView × Db
  pub list_items : ℤ → ℤ → Db → Result (List ItemView) × Db
  pub purchase_item : PurchaseInput → Db → Result PurchaseResult × Db

pub record AuctionService : Type 0 where
  pub create_auction : CreateAuctionInput → Db → Result AuctionView × Db
  pub get_auction : ℕ → Db → Result AuctionView × Db
  pub list_active_auctions : ℤ → ℤ → Db → Result (List AuctionView) × Db
  pub place_bid : PlaceBidInput → Db → Result Bid × Db
  pub cancel_bid : CancelBidInput → Db → Result (Unit {0}) × Db

pub record WalletService : Type 0 where
  pub get_wallet : ℕ → Db → Result WalletView × Db
