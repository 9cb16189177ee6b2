-- ===== src/ItemService/Bought.antt =====
-- What a purchase has done by its end, in a sound database.
use mathlib.Core.Path.{subst}
use dragon_market.Base.{
  ℕ, ◌≤◌, ◌<◌, ◌⊎◌, ◌≡◌, ◌≢◌, refl, sym, ◌∙◌, ◌+◌, ◌-◌, ◌*◌, false, some, ◌==◌, arith, tests, ap,
}
use dragon_market.Repository.Tables.{
  find_row, find_row-fits, find_row-update_rows_same, find_row-update_rows_other,
}
use dragon_market.Repository.Rows.{Item, Inventory, Listing, ListingStatus, Reference, is_legendary}
use dragon_market.Repository.Db.{Db, Tx, ◌>>◌, pure}
use dragon_market.Repository.Auctions.{item_row}
use dragon_market.Repository.Listings
use dragon_market.Repository.Listings.{listing_row, active_for_item, put_listing}
use dragon_market.Repository.Inventories
use dragon_market.Repository.Inventories.{inventory_of, put_quantity, of_guild_and_item}
use dragon_market.GoldPouch.Effects.{total_gold}
use dragon_market.ItemService.{
  PurchaseInput, PurchaseResult, pay_listing, sold_listing, purchase_result,
}
use dragon_market.ItemService.Payment.{payment-Ends}
use dragon_market.ItemService.Paid.{Paid}
use dragon_market.Settlement.Round.{total_of}
use dragon_market.Atomic.{Later, Ends, bind-Ends, weaken_Ends}
use dragon_market.Invariant.{IsSound}
use dragon_market.Invariant.Side.{beside-IsSound}

-- What is left of a listing of which n were sold: n fewer, EXPIRED where none are left, and else as
-- it was.
pub record Reduced (listing : Listing) (n : ℕ) (left : Listing) : Type 0 where
  pub same :
      (left.id ≡ listing.id)
      × (left.item_id ≡ listing.item_id)
      × (left.guild_id ≡ listing.guild_id)
      × (left.base_price ≡ listing.base_price)
  pub fewer : left.quantity + n ≡ listing.quantity
  pub status :
      ((left.quantity ≡ 0) × (left.status ≡ ListingStatus.expired))
      ⊎ ((0 < left.quantity) × (left.status ≡ listing.status))

-- The answer to the buyer of n.
pub record Receipt (item_id n : ℕ) (listing left : Listing) (r : PurchaseResult) : Type 0 where
  pub of_item : r.item_id ≡ item_id
  pub quantity : r.quantity ≡ n
  pub unit_price : r.unit_price ≡ listing.base_price
  pub total_price : r.total_price ≡ listing.base_price * n
  pub seller : r.seller_guild_id ≡ listing.guild_id
  pub of_listing : r.listing_id ≡ listing.id
  pub status : r.listing_status ≡ left.status

-- What a purchase of n has done.
pub record Bought (input : PurchaseInput) (n : ℕ) (d : Db) (item : Item) (first listing : Listing)
    (inv : Inventory) (r : PurchaseResult) (d' : Db) : Type 0 where
  pub found : item_row input.item_id d ≡ some item
  pub plain : is_legendary item.rarity ≡ false
  pub offered : active_for_item input.item_id d ≡ some first
  pub locked : listing_row first.id d ≡ some listing
  pub stock : inventory_of listing.guild_id input.item_id d ≡ some inv
  pub enough : (n ≤ listing.quantity) × (n ≤ inv.quantity)
  pub sound : IsSound d'
  pub later : Later d d'
  pub gold : total_gold d' ≡ total_gold d
  pub items : d'.items ≡ d.items
  pub bids : d'.bids ≡ d.bids
  pub auctions : d'.auctions ≡ d.auctions
  pub moved :
      input.buyer_guild_id ≢ listing.guild_id
      → (total_of input.buyer_guild_id d' + listing.base_price * n
          ≡ total_of input.buyer_guild_id d)
        × (total_of listing.guild_id d' ≡ total_of listing.guild_id d + listing.base_price * n)
  pub listing_left :
      (left : Listing) × (listing_row listing.id d' ≡ some left)
      × Reduced listing n left
      × Receipt input.item_id n listing left r
  pub stock_left :
      inventory_of listing.guild_id input.item_id d'
      ≡ some (record inv { quantity = inv.quantity - n })
  pub others_stock :
      (g : ℕ)
      → g ≢ listing.guild_id
      → inventory_of g input.item_id d' ≡ inventory_of g input.item_id d

module _ (input : PurchaseInput) (n reserve_now settle_now t : ℕ) (d : Db) (s : IsSound d) where
  module _ (item : Item) (first listing : Listing) (inv : Inventory)
      (fi : item_row input.item_id d ≡ some item) (plain : is_legendary item.rarity ≡ false)
      (fa : active_for_item input.item_id d ≡ some first)
      (fl : listing_row first.id d ≡ some listing)
      (fv : inventory_of listing.guild_id input.item_id d ≡ some inv)
      (enough : (n ≤ listing.quantity) × (n ≤ inv.quantity)) where
    -- The statements after the payment, and the state that they leave.
    abbrev finish : Tx PurchaseResult
    finish = do
      Listings.update (sold_listing listing n)
      Inventories.update_quantity listing.guild_id input.item_id (inv.quantity - n)
      pure (purchase_result input listing n)

    abbrev pub sold_db : Db → Db
    sold_db x =
        put_quantity listing.guild_id input.item_id (inv.quantity - n)
          (put_listing (sold_listing listing n) x)

    finish-state :
        (x : Db)
        → Later d x
        → x.inventories ≡ d.inventories
        → Ends (λ r y. (r ≡ purchase_result input listing n) × (y ≡ sold_db x)) d (finish t x)
    unfolding Listings.update Inventories.update_quantity
    finish-state x l same = ground (arith, fv, same)

    listing-id : listing.id ≡ first.id
    listing-id = omega (tests, find_row-fits _ d.listings listing fl)

    here : listing_row listing.id d ≡ some listing
    here = subst (λ k. listing_row k d ≡ some listing) (sym listing-id) fl

    sold_db-listing :
        (x : Db)
        → x.listings ≡ d.listings
        → listing_row listing.id (sold_db x) ≡ some (sold_listing listing n)
    sold_db-listing x same =
        find_row-update_rows_same (λ r. r.id == listing.id)
          (λ r. record r {
            quantity = (sold_listing listing n).quantity;
            base_price = listing.base_price;
            status = (sold_listing listing n).status;
          })
          x.listings (λ r. refl)
        ∙ rw (same, here) refl

    sold_db-stock :
        (x : Db)
        → x.inventories ≡ d.inventories
        → inventory_of listing.guild_id input.item_id (sold_db x)
          ≡ some (record inv { quantity = inv.quantity - n })
    sold_db-stock x same =
        find_row-update_rows_same (of_guild_and_item listing.guild_id input.item_id)
          (λ r. record r { quantity = inv.quantity - n }) x.inventories (λ r. refl)
        ∙ rw (same, fv) refl

    sold_db-others :
        (x : Db) (g : ℕ)
        → x.inventories ≡ d.inventories
        → g ≢ listing.guild_id
        → inventory_of g input.item_id (sold_db x) ≡ inventory_of g input.item_id d
    sold_db-others x g same apart =
        find_row-update_rows_other (of_guild_and_item g input.item_id)
          (of_guild_and_item listing.guild_id input.item_id)
          (λ r. record r { quantity = inv.quantity - n }) x.inventories (λ r. refl)
          (λ r e. ground arith)
        ∙ ap (find_row (of_guild_and_item g input.item_id)) same

    reduced : Reduced listing n (sold_listing listing n)
    reduced = record {
      same = (refl, refl, refl, refl);
      fewer = omega (arith, enough);
      status = ground (arith, enough);
    }

    receipt :
        Receipt input.item_id n listing (sold_listing listing n) (purchase_result input listing n)
    receipt = record {
      of_item = refl;
      quantity = refl;
      unit_price = refl;
      total_price = refl;
      seller = refl;
      of_listing = refl;
      status = refl;
    }

    pub sold_db-Bought :
        (x : Db)
        → Paid input.buyer_guild_id listing.guild_id (listing.base_price * n) d x
        → Bought input n d item first listing inv (purchase_result input listing n) (sold_db x)
    sold_db-Bought x p = record {
      found = fi;
      plain = plain;
      offered = fa;
      locked = fl;
      stock = fv;
      enough = enough;
      sound =
          beside-IsSound x.items (sold_db x).inventories (sold_db x).listings x.transaction_logs
            x.next.items x.next.inventories x.next.listings x.next.transaction_logs x p.sound;
      later = p.later;
      gold = p.gold;
      items = p.items;
      bids = p.bids;
      auctions = p.auctions;
      moved = p.moved;
      listing_left = (sold_listing listing n, sold_db-listing x p.listings, reduced, receipt);
      stock_left = sold_db-stock x p.inventories;
      others_stock = λ g apart. sold_db-others x g p.inventories apart;
    }

    abbrev BoughtHere : PurchaseResult → Db → Type 0
    BoughtHere r d' = Bought input n d item first listing inv r d'

    Paid-Ends :
        (x : Db)
        → Paid input.buyer_guild_id listing.guild_id (listing.base_price * n) d x
        → Ends BoughtHere d (finish t x)
    Paid-Ends x p =
        weaken_Ends (λ r y. (r ≡ purchase_result input listing n) × (y ≡ sold_db x)) d BoughtHere _
          (finish-state x p.later p.inventories)
          (λ r y k.
            subst (λ y'. BoughtHere r y') (sym k.1)
              (subst (λ r'. BoughtHere r' (sold_db x)) (sym k.0) (sold_db-Bought x p)))

    pub pay-Ends :
        Ends BoughtHere d (
          (pay_listing input listing (listing.base_price * n) reserve_now settle_now >> finish) t d)
    unfolding pay_listing
    pay-Ends =
        bind-Ends (λ _. Paid input.buyer_guild_id listing.guild_id (listing.base_price * n) d)
          BoughtHere d (pay_listing input listing (listing.base_price * n) reserve_now settle_now)
          (λ _. finish) t d
          (payment-Ends input.buyer_guild_id listing.guild_id (listing.base_price * n)
            (some (Reference.listing listing.id)) reserve_now settle_now t d s)
          (λ _ x p. Paid-Ends x p)
