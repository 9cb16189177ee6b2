-- ===== src/Auction/Opening/Added.antt =====
-- CreateAuction: the auction that a call which succeeds has added.
use dragon_market.Base.{ℕ, ◌<◌, ◌≡◌, ◌⊎◌, ◌+◌, ◌*◌, ◌/◌, ◌%◌, ◌^◌, none, some, [], ◌∷◌, ◌++◌}
use dragon_market.Repository.Rows.{Auction, AuctionStatus, Item, ItemRarity, Inventory}
use dragon_market.Repository.Db.{Db}
use dragon_market.Repository.Auctions.{item_row, active_for_item}
use dragon_market.Repository.Inventories.{inventory_of}
use dragon_market.ItemService.{Prices}
use dragon_market.Auction.Opening.{CreateAuctionInput, AuctionView}

-- An auction a of n seconds, the tests that it passed, the answer and the new state.
pub record Added (prices : Prices) (input : CreateAuctionInput) (n now : ℕ) (d : Db) (item : Item)
    (inv : Inventory) (a : Auction) (v : AuctionView) (d' : Db) : Type 0 where
  pub found : item_row input.item_id d ≡ some item
  pub owned : inventory_of input.owner_guild_id input.item_id d ≡ some inv
  pub legendary : item.rarity ≡ ItemRarity.legendary
  pub free : active_for_item input.item_id d ≡ none
  pub fresh : a.id ≡ d.next.auctions
  pub of_item : a.item_id ≡ input.item_id
  pub by_guild : a.owner_guild_id ≡ input.owner_guild_id
  pub is_active : a.status ≡ AuctionStatus.active
  pub start : a.start_time ≡ now / 1000 * 1000
  pub lasting :
      (0 < n * 1_000_000_000 % 2 ^ 64)
      × (n * 1_000_000_000 % 2 ^ 64 < 2 ^ 63)
      × (a.end_time ≡ a.start_time + n * 1_000_000_000 % 2 ^ 64)
  pub price :
      (prices item.id ≡ some a.base_price) ⊎ ((prices item.id ≡ none) × (a.base_price ≡ item.price))
  pub view : v ≡ record {
    id = a.id;
    item_id = a.item_id;
    owner_guild_id = a.owner_guild_id;
    status = a.status;
    start_time = a.start_time;
    end_time = a.end_time;
    base_price = a.base_price;
  }
  pub state : d' ≡ record d {
    auctions = d.auctions ++ a ∷ [];
    next = record (d.next) { auctions = d.next.auctions + 1 };
  }
