-- ===== src/ItemService/Purchase.antt =====
-- PurchaseItem in a sound database.
use dragon_market.Base.{ℕ, ◌≡◌, ◌-◌, ◌*◌, false, not, some, ltb, arith}
use dragon_market.Repository.Rows.{Item, Inventory, Listing, is_legendary, listing_active}
use dragon_market.Repository.Db.{Db, Tx, Error, ◌>>=◌, ◌>>◌, pure, raise_if, on_not_found}
use dragon_market.Repository.Items
use dragon_market.Repository.Auctions.{item_row}
use dragon_market.Repository.Listings
use dragon_market.Repository.Listings.{listing_row, active_for_item, put_listing}
use dragon_market.Repository.Inventories
use dragon_market.Repository.Inventories.{inventory_of, put_quantity, of_guild_and_item}
use dragon_market.ItemService.{
  PurchaseInput, PurchaseResult, pay_listing, sold_listing, purchase_result, purchase_body,
}
use dragon_market.Atomic.{Ends, or_raise-Ends, query-Ends, raise_if-Ends, weaken_Ends}
use dragon_market.Invariant.{IsSound}
use dragon_market.ItemService.Bought.{Bought, pay-Ends}

module _ (input : PurchaseInput) (n reserve_now settle_now t : ℕ) (d : Db) (s : IsSound d) where
  -- The body, read from its end.
  abbrev pub Purchased : PurchaseResult → Db → Type 0
  Purchased r d' =
      (item : Item) × (first : Listing) × (listing : Listing) × (inv : Inventory) × Bought input n d
        item first listing inv r d'

  abbrev pub settle_up : Listing → Inventory → Tx PurchaseResult
  settle_up listing inv = do
    pay_listing input listing (listing.base_price * n) reserve_now settle_now
    Listings.update (sold_listing listing n)
    Inventories.update_quantity listing.guild_id input.item_id (inv.quantity - n)
    pure (purchase_result input listing n)

  abbrev after_quantity : Listing → Inventory → Tx PurchaseResult
  after_quantity listing inv =
      raise_if (ltb inv.quantity n) Error.insufficient_quantity >> settle_up listing inv

  abbrev after_status : Listing → Inventory → Tx PurchaseResult
  after_status listing inv =
      raise_if (ltb listing.quantity n) Error.insufficient_quantity >> after_quantity listing inv

  abbrev after_locks : Listing → Inventory → Tx PurchaseResult
  after_locks listing inv =
      raise_if (not (listing_active listing.status)) Error.listing_not_active
      >> after_status listing inv

  abbrev after_listing : Listing → Tx PurchaseResult
  after_listing listing = do
    inv ← Inventories.get_by_guild_and_item listing.guild_id input.item_id
    after_locks listing inv

  abbrev after_offer : Listing → Tx PurchaseResult
  after_offer first = do listing ← Listings.get_by_id first.id; after_listing listing

  abbrev after_rarity : Tx PurchaseResult
  after_rarity = do
    first ← on_not_found Error.listing_not_active (Listings.get_active_by_item_id input.item_id)
    after_offer first

  abbrev after_item : Item → Tx PurchaseResult
  after_item item = raise_if (is_legendary item.rarity) Error.listing_not_active >> after_rarity

  module _ (item : Item) (fi : item_row input.item_id d ≡ some item)
      (plain : is_legendary item.rarity ≡ false) where
    after_locks-Ends :
        (first listing : Listing) (inv : Inventory)
        → active_for_item input.item_id d ≡ some first
        → listing_row first.id d ≡ some listing
        → inventory_of listing.guild_id input.item_id d ≡ some inv
        → Ends Purchased d (after_locks listing inv t d)
    after_locks-Ends first listing inv fa fl fv =
        raise_if-Ends Purchased d (not (listing_active listing.status)) Error.listing_not_active
          (after_status listing inv) t d (omega arith, omega arith)
          λ _.
            raise_if-Ends Purchased d (ltb listing.quantity n) Error.insufficient_quantity
              (after_quantity listing inv) t d (omega arith, omega arith)
              λ offered.
                raise_if-Ends Purchased d (ltb inv.quantity n) Error.insufficient_quantity
                  (settle_up listing inv) t d (omega arith, omega arith)
                  λ stocked.
                    weaken_Ends (λ r y. Bought input n d item first listing inv r y) d Purchased _
                      (pay-Ends input n reserve_now settle_now t d s item first listing inv fi plain
                        fa fl fv (ground (arith, offered), ground (arith, stocked)))
                      (λ r y k. (item, first, listing, inv, k))

    after_listing-Ends :
        (first listing : Listing)
        → active_for_item input.item_id d ≡ some first
        → listing_row first.id d ≡ some listing
        → Ends Purchased d (after_listing listing t d)
    unfolding Inventories.get_by_guild_and_item
    after_listing-Ends first listing fa fl =
        or_raise-Ends Purchased d (inventory_of listing.guild_id input.item_id d) Error.not_found
          (after_locks listing) t d (omega arith, omega arith)
          (λ inv fv. after_locks-Ends first listing inv fa fl fv)

    after_rarity-Ends : Ends Purchased d (after_rarity t d)
    unfolding Listings.get_active_by_item_id Listings.get_by_id
    after_rarity-Ends =
        query-Ends Purchased d (active_for_item input.item_id d) Error.listing_not_active
          after_offer t d (omega arith, omega arith)
          λ first fa.
            or_raise-Ends Purchased d (listing_row first.id d) Error.not_found after_listing t d
              (omega arith, omega arith) (λ listing fl. after_listing-Ends first listing fa fl)

  pub purchase_body-Ends : Ends Purchased d (purchase_body input n reserve_now settle_now t d)
  unfolding purchase_body Items.get_by_id
  purchase_body-Ends =
      query-Ends Purchased d (item_row input.item_id d) Error.item_not_found after_item t d
        (omega arith, omega arith)
        λ item fi.
          raise_if-Ends Purchased d (is_legendary item.rarity) Error.listing_not_active after_rarity
            t d (omega arith, omega arith) (λ plain. after_rarity-Ends item fi plain)
