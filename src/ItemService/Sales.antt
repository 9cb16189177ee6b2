-- ===== src/ItemService/Sales.antt =====
-- PurchaseItem: what a call leaves behind, however it ends.
use mathlib.Core.Path.{subst}
use dragon_market.Base.{ℕ, positive, ◌≡◌, refl, inl, inr, some, arith, Option-cases}
use dragon_market.Repository.Rows.{Item, Inventory, Listing}
use dragon_market.Repository.Db.{Db, ok, Connection, run_tx}
use dragon_market.Repository.Listings.{is_active_for}
use dragon_market.Repository.Keys.{Distinct, find_row-key}
use dragon_market.GoldPouch.Effects.{total_gold}
use dragon_market.ItemService.{PurchaseInput, PurchaseResult, purchase_body, purchase_item}
use dragon_market.ItemService.Purchase.{Purchased, purchase_body-Ends}
use dragon_market.ItemService.Bought.{Bought}
use dragon_market.Atomic.{Later, Ends, weaken_Ends, run_tx-keeps, run_tx-ok}
use dragon_market.Invariant.{IsSound, rollback-IsSound}

abbrev pub listing_key : Listing → ℕ
listing_key l = l.id

module _ (c : Connection) (input : PurchaseInput) (begin reserve_now settle_now : ℕ) (d : Db)
    (s : IsSound d) where
  Purchased-kept :
      (n : ℕ) (r : PurchaseResult) (d' : Db)
      → Purchased input n reserve_now settle_now begin d s r d'
      → (IsSound d' × (total_gold d' ≡ total_gold d)) × Later d d'
  Purchased-kept n r d' (item, first, listing, inv, b) = ((b.sound, b.gold), b.later)

  -- PurchaseItem keeps a sound database sound and neither makes nor loses gold, however it ends.
  pub purchase_item-keeps :
      IsSound (purchase_item c input begin reserve_now settle_now d).1
      × (total_gold (purchase_item c input begin reserve_now settle_now d).1 ≡ total_gold d)
  unfolding purchase_item
  purchase_item-keeps = elim (Option-cases (positive input.quantity)) [
    | inl e ↦ rw (e, purchase_item) (s, refl)
    | inr (n, e) ↦
        rw (e, purchase_item)
          (run_tx-keeps (λ x. IsSound x × (total_gold x ≡ total_gold d)) d (s, refl)
            (λ x l. (rollback-IsSound d s x l, refl)) c begin
            (purchase_body input n reserve_now settle_now)
            (weaken_Ends (Purchased input n reserve_now settle_now begin d s) d
              (λ _ x. (IsSound x × (total_gold x ≡ total_gold d)) × Later d x) _
              (purchase_body-Ends input n reserve_now settle_now begin d s)
              (λ r x k. Purchased-kept n r x k)))
  ]

  body-Purchased :
      (n : ℕ) (r : PurchaseResult) (d' : Db)
      → run_tx c begin (purchase_body input n reserve_now settle_now) d ≡ (ok r, d')
      → Purchased input n reserve_now settle_now begin d s r d'
  body-Purchased n r d' e =
      subst (Ends (Purchased input n reserve_now settle_now begin d s) d)
        (run_tx-ok c begin (purchase_body input n reserve_now settle_now) d r d' e)
        (purchase_body-Ends input n reserve_now settle_now begin d s)

  -- The row that is locked is the one that the query by item found.
  same_listing :
      (n : ℕ) (r : PurchaseResult) (d' : Db)
      → Distinct listing_key d.listings
      → Purchased input n reserve_now settle_now begin d s r d'
      → (item : Item) × (listing : Listing) × (inv : Inventory) × Bought input n d item listing
          listing inv r d'
  same_listing n r d' v (item, first, listing, inv, b) =
      let same : first ≡ listing = ground (
        arith,
        find_row-key listing_key (is_active_for input.item_id) d.listings first v b.offered,
        b.locked,
      ) in
      (item, listing, inv, subst (λ l. Bought input n d item l listing inv r d') same b)

  -- A purchase that succeeds, from a sound database whose listings have distinct ids, is of a
  -- positive number n of an item that is not LEGENDARY, from its ACTIVE listing. Listing and
  -- inventory had n and have n fewer; the listing is EXPIRED where nothing is left of it, and else as
  -- it was. n times the base price has moved from the buyer to another seller, and the sum of all
  -- balances is what it was. No other guild's inventory of the item changes, the buyer's included.
  -- The answer tells the item, the seller, the listing with its new status, n, the base price and n
  -- times it.
  pub purchase_item-Bought :
      (r : PurchaseResult) (d' : Db)
      → Distinct listing_key d.listings
      → purchase_item c input begin reserve_now settle_now d ≡ (ok r, d')
      → (n : ℕ) × (positive input.quantity ≡ some n)
        × (item : Item) × (listing : Listing) × (inv : Inventory) × Bought input n d item listing
            listing inv r d'
  unfolding purchase_item
  purchase_item-Bought r d' v h = elim (Option-cases (positive input.quantity)) [
    | inl e ↦ absurd (ground (arith, (rw (e, purchase_item) at h)))
    | inr (n, e) ↦
        (let (item, listing, inv, b) =
            same_listing n r d' v (body-Purchased n r d' (rw (e, purchase_item) at h)) in
          (n, e, item, listing, inv, b))
  ]
