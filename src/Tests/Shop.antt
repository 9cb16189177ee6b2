-- ===== src/Tests/Shop.antt =====
-- Guild 1 also sells rope: guild 2 buys two of four pieces.
use dragon_market.Base.{ℕ, pos, negsuc, true, false, ◌≡◌, refl, none, some, [], ◌∷◌, arith}
use dragon_market.Repository.Tables.{find_row, update_rows}
use dragon_market.Repository.Rows.{Item, ItemRarity, Inventory, Listing, ListingStatus}
use dragon_market.Repository.Db.{Db, Result, ok, run_tx, end_tx}
use dragon_market.Repository.Items
use dragon_market.Repository.Listings
use dragon_market.Repository.Inventories
use dragon_market.Repository.Inventories.{inventory_of}
use dragon_market.Repository.GoldPouches
use dragon_market.GoldPouch.{reserve, settle, credit, write_log}
use dragon_market.GoldPouch.Effects.{total_gold}
use dragon_market.ItemService.{
  PurchaseInput, PurchaseResult, purchase_item, purchase_body, pay_listing, list_items,
  purchase_result,
}
use dragon_market.ItemService.{
  CreateItemInput, CreateItemResult, create_item, create_item_body, create_listing,
  resolve_guild_id,
}
use dragon_market.ItemService.Creation.{created_result}
use dragon_market.ItemService.Admission.{Created, create_item-Created}
use dragon_market.Repository.Guilds
use dragon_market.Repository.Auctions.{item_row}
use dragon_market.ItemService.Bought.{Bought}
use dragon_market.ItemService.Sales.{purchase_item-keeps, purchase_item-Bought}
use dragon_market.ItemService.Shown.{list_items-window}
use dragon_market.ItemService.Selling.{purchase_item-sold}
use dragon_market.Invariant.{IsSound}
use dragon_market.Invariant.Side.{beside, beside-IsSound}
use dragon_market.Tests.Market.{opened, opened-IsSound, working, a_pouch, sword}

abbrev rope : Item
rope = record {
  id = 7;
  name = "rope";
  land_of_origin = "";
  rarity = ItemRarity.common;
  forger_character_id = 1;
  price = 50;
}

abbrev coil : Inventory
coil = record { id = 8; guild_id = 1; item_id = 7; quantity = 4; item_rarity = ItemRarity.common }

abbrev rope_listing : Listing
rope_listing = record {
  id = 3;
  item_id = 7;
  guild_id = 1;
  quantity = 4;
  base_price = 50;
  status = ListingStatus.active;
}

abbrev stocked : Db
stocked = beside (rope ∷ []) (coil ∷ []) (rope_listing ∷ []) [] 8 9 4 1 opened

stocked-IsSound : IsSound stocked
stocked-IsSound =
    beside-IsSound (rope ∷ []) (coil ∷ []) (rope_listing ∷ []) [] 8 9 4 1 opened opened-IsSound

abbrev two_pieces : PurchaseInput
two_pieces = record { item_id = 7; buyer_guild_id = 2; quantity = pos 2 }

abbrev sold : Result PurchaseResult × Db
sold = purchase_item working two_pieces 10 20 30 stocked

sold-runs : sold ≡ (ok (purchase_result two_pieces rope_listing 2), sold.1)
unfolding purchase_item purchase_body pay_listing run_tx end_tx Items.get_by_id
    Listings.get_active_by_item_id Listings.get_by_id Listings.update
    Inventories.get_by_guild_and_item Inventories.update_quantity reserve settle credit write_log
    GoldPouches.get_by_guild_id GoldPouches.update find_row update_rows
sold-runs = refl

purchase_item-keeps_example : IsSound sold.1 × (total_gold sold.1 ≡ 3000)
purchase_item-keeps_example =
    purchase_item-keeps working two_pieces 10 20 30 stocked stocked-IsSound

purchase_item-Bought_example :
    (n : ℕ) × (some 2 ≡ some n)
    × (item : Item) × (listing : Listing) × (inv : Inventory) × Bought two_pieces n stocked item
        listing listing inv
        (purchase_result two_pieces rope_listing 2)
        sold.1
unfolding find_row
purchase_item-Bought_example =
    purchase_item-Bought working two_pieces 10 20 30 stocked stocked-IsSound
      (purchase_result two_pieces rope_listing 2) sold.1 (refl, tt) sold-runs

abbrev ten_lamps : CreateItemInput
ten_lamps = record {
  name = "lamp";
  land_of_origin = "";
  forger_character_id = 9;
  rarity = some ItemRarity.rare;
  price = some (pos 30);
  guild_id = some 2;
  quantity = some (pos 10);
}

abbrev with_smith : Db
with_smith = record opened {
  characters =
      record { id = 9; name = ""; land_of_origin = ""; stats = none; guild_id = none } ∷ [];
}

abbrev made : Result CreateItemResult × Db
made = create_item working (λ _. none) ten_lamps 10 with_smith

abbrev made_result : CreateItemResult
made_result = created_result (λ _. none) ten_lamps ItemRarity.rare 30 10 2 with_smith

made-runs : made ≡ (ok made_result, made.1)
unfolding create_item create_item_body create_listing resolve_guild_id run_tx end_tx
    Guilds.get_by_id Items.create Inventories.create Inventories.insert Listings.create find_row
made-runs = refl

id_free : item_row 6 with_smith ≡ none
unfolding find_row
id_free = refl

create_item-Created_example : Created working (λ _. none) ten_lamps 10 with_smith made_result made.1
create_item-Created_example =
    create_item-Created working (λ _. none) ten_lamps 10 with_smith id_free made_result made.1
      made-runs

purchase_item-sold_example :
    (r : PurchaseResult) × (d' : Db) × (purchase_item working two_pieces 10 20 30 stocked
      ≡ (ok r, d'))
    × Bought two_pieces 2 stocked rope rope_listing rope_listing coil r d'
unfolding find_row
purchase_item-sold_example =
    purchase_item-sold working two_pieces 2 10 20 30 stocked rope rope_listing coil (a_pouch 2)
      (a_pouch 1) stocked-IsSound refl refl refl refl refl refl refl refl (omega arith)
      (omega arith) (omega arith) (omega arith) (omega arith) refl refl refl
      (λ e. absurd (omega (arith, e))) (omega arith) (ground arith) (ground arith) (ground arith)

abbrev two_items : Db
two_items = record opened { items = sword ∷ rope ∷ [] }

-- With a cached price for both, which counts for the LEGENDARY one only.
list_items-window_example : list_items (λ _. some 900) (pos 0) (negsuc 0) 10 two_items ≡ (
  ok (
      record {
        id = 5;
        name = "sword";
        land_of_origin = "";
        rarity = ItemRarity.legendary;
        forger_character_id = 1;
        price = 900;
        legendary = true;
      }
      ∷ record {
        id = 7;
        name = "rope";
        land_of_origin = "";
        rarity = ItemRarity.common;
        forger_character_id = 1;
        price = 50;
        legendary = false;
      }
      ∷ []),
  two_items,
)
list_items-window_example = list_items-window (λ _. some 900) (pos 0) (negsuc 0) 10 two_items
