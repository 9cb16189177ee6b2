-- ===== src/ItemService/Selling.antt =====
-- PurchaseItem: when it succeeds.
use dragon_market.Base.{
  ℕ, positive, ◌≤◌, ◌<◌, ◌≡◌, ◌≢◌, refl, ◌∙◌, ◌+◌, ◌-◌, ◌*◌, true, false, some, arith,
}
use dragon_market.Repository.Tables.{find_row-fits}
use dragon_market.Repository.Rows.{
  GoldPouch, Item, Listing, Inventory, Reference, is_legendary, listing_active,
}
use dragon_market.Repository.Db.{Db, Connection, ok, ◌>>◌, pure, bind-ok, int4_max, run_tx, end_tx}
use dragon_market.Repository.GoldPouches.{pouch_of}
use dragon_market.Repository.Items
use dragon_market.Repository.Auctions.{item_row}
use dragon_market.Repository.Listings
use dragon_market.Repository.Listings.{listing_row, active_for_item, is_active_for}
use dragon_market.Repository.Inventories
use dragon_market.Repository.Inventories.{inventory_of}
use dragon_market.GoldPouch.{reset_day}
use dragon_market.GoldPouch.Answers.{spent_on, reset_day-spent_on}
use dragon_market.ItemService.{
  PurchaseInput, PurchaseResult, pay_listing, sold_listing, purchase_result, purchase_body,
  purchase_item,
}
use dragon_market.ItemService.Paying.{payment-Paid}
use dragon_market.ItemService.Purchase.{settle_up}
use dragon_market.ItemService.Bought.{Bought, sold_db, sold_db-Bought}
use dragon_market.Invariant.{IsSound}

module _ (input : PurchaseInput) (n reserve_now settle_now t : ℕ) (d : Db) (s : IsSound d)
    (item : Item) (listing : Listing) (inv : Inventory) (fi : item_row input.item_id d ≡ some item)
    (plain : is_legendary item.rarity ≡ false) (fa : active_for_item input.item_id d ≡ some listing)
    (fl : listing_row listing.id d ≡ some listing)
    (fv : inventory_of listing.guild_id input.item_id d ≡ some inv) (offered : n ≤ listing.quantity)
    (stocked : n ≤ inv.quantity) (small : listing.quantity ≤ int4_max)
    (small_stock : inv.quantity ≤ int4_max) (small_price : listing.base_price ≤ int4_max)
    (plain_stock : is_legendary inv.item_rarity ≡ false) where
  active : listing_active listing.status ≡ true
  active = ground (arith, find_row-fits (is_active_for input.item_id) d.listings listing fa)

  -- Past all the tests.
  body-reached :
      purchase_body input n reserve_now settle_now t d
      ≡ settle_up input n reserve_now settle_now t d s listing inv t d
  unfolding purchase_body Items.get_by_id Listings.get_active_by_item_id Listings.get_by_id
      Inventories.get_by_guild_and_item
  body-reached = ground (arith, fi, plain, fa, fl, fv, active)

  abbrev sold_state : Db → Db
  sold_state x =
      sold_db input n reserve_now settle_now t d s item listing listing inv fi plain fa fl fv
        (offered, stocked) x

  finished :
      (x : Db)
      → x.inventories ≡ d.inventories
      → (Listings.update (sold_listing listing n)
            >> (Inventories.update_quantity listing.guild_id input.item_id (inv.quantity - n)
                >> pure (purchase_result input listing n)))
          t x
        ≡ (ok (purchase_result input listing n), sold_state x)
  unfolding Listings.update Inventories.update_quantity
  finished x same = ground (arith, fv, same, small, small_stock, small_price, plain_stock)

  module _ (gp seller : GoldPouch) (fp : pouch_of input.buyer_guild_id d ≡ some gp)
      (ft : pouch_of listing.guild_id d ≡ some seller)
      (apart : listing.guild_id ≢ input.buyer_guild_id) (z : 0 < listing.base_price * n)
      (room : listing.base_price * n ≤ gp.total_balance - gp.reserved_balance)
      (limit : (reset_day reserve_now gp).spent_today + listing.base_price * n
        ≤ gp.daily_spending_limit)
      (fit : seller.total_balance + listing.base_price * n ≤ int4_max) where
    pub body-sold :
        (d' : Db) × (purchase_body input n reserve_now settle_now t d
          ≡ (ok (purchase_result input listing n), d'))
        × Bought input n d item listing listing inv (purchase_result input listing n) d'
    unfolding pay_listing
    body-sold =
        let total = listing.base_price * n in
        let (x, paid, p) =
          payment-Paid input.buyer_guild_id listing.guild_id total
            (some (Reference.listing listing.id)) reserve_now settle_now t d s gp fp seller ft apart
            z room limit fit in
        (
          sold_state x,
          body-reached
              ∙ bind-ok (pay_listing input listing total reserve_now settle_now)
                  (λ _.
                    Listings.update (sold_listing listing n)
                    >> (Inventories.update_quantity listing.guild_id input.item_id
                          (inv.quantity - n)
                        >> pure (purchase_result input listing n)))
                  t d tt x paid
              ∙ finished x p.inventories,
          sold_db-Bought input n reserve_now settle_now t d s item listing listing inv fi plain fa
              fl fv (offered, stocked) x p,
        )

run-ok :
    (c : Connection) (input : PurchaseInput) (n begin reserve_now settle_now : ℕ) (d d' : Db)
    (r : PurchaseResult)
    → c.begins ≡ true
    → c.commits ≡ true
    → positive input.quantity ≡ some n
    → purchase_body input n reserve_now settle_now begin d ≡ (ok r, d')
    → purchase_item c input begin reserve_now settle_now d ≡ (ok r, d')
unfolding purchase_item run_tx end_tx
run-ok c input n begin reserve_now settle_now d d' r begins commits e h =
    rw (e, purchase_item, begins, commits, h) refl

-- In a sound database and over a connection that begins and commits, PurchaseItem of a positive
-- number n of an item that is not LEGENDARY succeeds where the item's ACTIVE listing, another
-- guild's, and its guild's inventory have n, and where n times the base price is above zero, within
-- what the buyer can use and may still spend on the day, and within the room that the seller's
-- pouch has in its INTEGER column, and the listing and the inventory, which is not LEGENDARY, hold
-- numbers that fit theirs; it then does what a purchase of n does.
pub purchase_item-sold :
    (c : Connection) (input : PurchaseInput) (n begin reserve_now settle_now : ℕ) (d : Db)
    (item : Item) (listing : Listing) (inv : Inventory) (gp seller : GoldPouch)
    → IsSound d
    → c.begins ≡ true
    → c.commits ≡ true
    → positive input.quantity ≡ some n
    → item_row input.item_id d ≡ some item
    → is_legendary item.rarity ≡ false
    → active_for_item input.item_id d ≡ some listing
    → listing_row listing.id d ≡ some listing
    → inventory_of listing.guild_id input.item_id d ≡ some inv
    → n ≤ listing.quantity
    → n ≤ inv.quantity
    → listing.quantity ≤ int4_max
    → inv.quantity ≤ int4_max
    → listing.base_price ≤ int4_max
    → is_legendary inv.item_rarity ≡ false
    → pouch_of input.buyer_guild_id d ≡ some gp
    → pouch_of listing.guild_id d ≡ some seller
    → listing.guild_id ≢ input.buyer_guild_id
    → 0 < listing.base_price * n
    → listing.base_price * n ≤ gp.total_balance - gp.reserved_balance
    → spent_on reserve_now gp + listing.base_price * n ≤ gp.daily_spending_limit
    → seller.total_balance + listing.base_price * n ≤ int4_max
    → (r : PurchaseResult) × (d' : Db) × (purchase_item c input begin reserve_now settle_now d
        ≡ (ok r, d'))
      × Bought input n d item listing listing inv r d'
purchase_item-sold c input n begin reserve_now settle_now d item listing inv gp seller s begins
      commits asked fi plain fa fl fv offered stocked small small_stock small_price plain_stock fp
      ft apart z room limit fit =
    let limit' : (reset_day reserve_now gp).spent_today + listing.base_price * n
        ≤ gp.daily_spending_limit =
      rw (reset_day-spent_on reserve_now gp) limit in
    let (d', e, b) =
      body-sold input n reserve_now settle_now begin d s item listing inv fi plain fa fl fv offered
        stocked small small_stock small_price plain_stock gp seller fp ft apart z room limit' fit in
    (
      purchase_result input listing n,
      d',
      run-ok c input n begin reserve_now settle_now d d' (purchase_result input listing n) begins
          commits asked e,
      b,
    )
