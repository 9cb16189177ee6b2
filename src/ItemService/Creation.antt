-- ===== src/ItemService/Creation.antt =====
-- The transaction of CreateItem: the rows that it adds.
use dragon_market.Base.{ℕ, ◌≡◌, ◌+◌, none, some, [], ◌∷◌, ◌++◌, ◌==◌, if◌then◌else◌, arith}
use dragon_market.Repository.Tables.{find_row-append_new}
use dragon_market.Repository.Rows.{
  Item, ItemRarity, Inventory, Listing, ListingStatus, is_legendary,
}
use dragon_market.Repository.Db.{Db}
use dragon_market.Repository.Items
use dragon_market.Repository.Listings
use dragon_market.Repository.Inventories
use dragon_market.Repository.Auctions.{item_row}
use dragon_market.ItemService.{
  Prices, CreateItemInput, CreateItemResult, to_view, create_listing, create_item_body,
}
use dragon_market.Atomic.{Ends}
use dragon_market.Invariant.Side.{beside}

module _ (prices : Prices) (input : CreateItemInput) (rarity : ItemRarity)
    (price quantity guild_id : ℕ) (d : Db) where
  abbrev pub new_item : Item
  new_item = record {
    id = d.next.items;
    name = input.name;
    land_of_origin = input.land_of_origin;
    rarity = rarity;
    forger_character_id = input.forger_character_id;
    price = price;
  }

  abbrev pub new_inventory : Inventory
  new_inventory = record {
    id = d.next.inventories;
    guild_id = guild_id;
    item_id = d.next.items;
    quantity = quantity;
    item_rarity = rarity;
  }

  abbrev pub new_listing : Listing
  new_listing = record {
    id = d.next.listings;
    item_id = d.next.items;
    guild_id = guild_id;
    quantity = quantity;
    base_price = price;
    status = ListingStatus.active;
  }

  -- A LEGENDARY item gets no listing.
  abbrev pub created_db : Db
  created_db =
      beside (d.items ++ new_item ∷ []) (d.inventories ++ new_inventory ∷ [])
        (if is_legendary rarity then d.listings else d.listings ++ new_listing ∷ [])
        d.transaction_logs (d.next.items + 1) (d.next.inventories + 1)
        (if is_legendary rarity then d.next.listings else d.next.listings + 1)
        d.next.transaction_logs d

  abbrev pub created_result : CreateItemResult
  created_result = record {
    item = to_view prices new_item;
    guild_id = guild_id;
    quantity = quantity;
    listing_id = if is_legendary rarity then none else some d.next.listings;
  }

  pub create_item_body-Ends :
      (t : ℕ)
      → item_row d.next.items d ≡ none
      → Ends
          (λ r x. (r ≡ created_result) × (x ≡ created_db))
          d
          (create_item_body prices input rarity price quantity guild_id t d)
  unfolding create_item_body create_listing Items.create Inventories.create Inventories.insert
      Listings.create
  create_item_body-Ends t free =
      ground (arith, find_row-append_new (λ r. r.id == d.next.items) d.items new_item free)
