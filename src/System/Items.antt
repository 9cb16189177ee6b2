-- ===== src/System/Items.antt =====
-- The table of items over the calls of the services.
use mathlib.Core.Path.{subst}
use dragon_market.Base.{
  ℕ, positive, ◌≡◌, refl, sym, inl, inr, some, [], ◌∷◌, ◌++◌, ◌==◌, arith, Option-cases,
}
use dragon_market.Repository.Tables.{find_row-append_found, find_row}
use dragon_market.Repository.Rows.{Item, ItemRarity}
use dragon_market.Repository.Db.{Db, Connection}
use dragon_market.Repository.Items
use dragon_market.Repository.Inventories
use dragon_market.Repository.Listings
use dragon_market.Repository.Auctions.{item_row}
use dragon_market.ItemService.{
  Prices, CreateItemInput, PurchaseInput, create_item, create_item_body, create_listing,
  purchase_item, purchase_body,
}
use dragon_market.ItemService.Creation.{new_item}
use dragon_market.ItemService.Admission.{create_item-rule}
use dragon_market.ItemService.Purchase.{Purchased, purchase_body-Ends}
use dragon_market.Auction.{PlaceBidInput, CancelBidInput, place_bid, cancel_bid}
use dragon_market.Auction.Rules.{place_bid-rule, cancel_bid-rule, create_auction-rule}
use dragon_market.Auction.Opening.{CreateAuctionInput, create_auction}
use dragon_market.Settlement.{Reading, settle_auction, settle_auction_body}
use dragon_market.Settlement.Closing.{Due, body-Ends}
use dragon_market.Atomic.{Later, Ends, weaken_Ends, run_tx-keeps}
use dragon_market.Invariant.{IsSound}

-- Every item that is there stays as it is.
abbrev pub Extends : Db → Db → Type 0
Extends d x = (id : ℕ) (i : Item) → item_row id d ≡ some i → item_row id x ≡ some i

pub same-Extends : (d x : Db) → x.items ≡ d.items → Extends d x
same-Extends d x e id i f = subst (λ rows. find_row (λ r. r.id == id) rows ≡ some i) (sym e) f

added-Extends : (d x : Db) (y : Item) → x.items ≡ d.items ++ y ∷ [] → Extends d x
added-Extends d x y e id i f =
    subst (λ rows. find_row (λ r. r.id == id) rows ≡ some i) (sym e)
      (find_row-append_found (λ r. r.id == id) d.items y i f)

added :
    (prices : Prices) (input : CreateItemInput) (rarity : ItemRarity) (price quantity g t : ℕ)
    (d : Db)
    → Ends
        (λ _ x.
          (x.items ≡ d.items ++ new_item prices input rarity price quantity g d ∷ []) × Later d x)
        d
        (create_item_body prices input rarity price quantity g t d)
unfolding create_item_body create_listing Items.create Inventories.create Inventories.insert
    Listings.create
added prices input rarity price quantity g t d = ground arith

pub create_item-Extends :
    (c : Connection) (prices : Prices) (input : CreateItemInput) (begin : ℕ) (d : Db)
    → Extends d (create_item c prices input begin d).1
create_item-Extends c prices input begin d =
    create_item-rule c prices input begin d (λ r. Extends d r.1) (λ e id i f. f)
      λ rarity price quantity g _.
        run_tx-keeps (Extends d) d (λ id i f. f) (λ x _ id i f. f) c begin
          (create_item_body prices input rarity price quantity g)
          (weaken_Ends
            (λ _ x.
              (x.items ≡ d.items ++ new_item prices input rarity price quantity g d ∷ [])
              × Later d x)
            d (λ _ x. Extends d x × Later d x) _
            (added prices input rarity price quantity g begin d)
            (λ _ x k. (added-Extends d x _ k.0, k.1)))

abbrev pub SameItems : Db → Db → Type 0
SameItems d x = x.items ≡ d.items

pub purchase_item-items :
    (c : Connection) (input : PurchaseInput) (begin reserve_now settle_now : ℕ) (d : Db)
    → IsSound d
    → SameItems d (purchase_item c input begin reserve_now settle_now d).1
unfolding purchase_item
purchase_item-items c input begin reserve_now settle_now d s =
    elim (Option-cases (positive input.quantity)) [
      | inl e ↦ rw (e, purchase_item) refl
      | inr (n, e) ↦
          rw (e, purchase_item)
            (run_tx-keeps (SameItems d) d refl (λ _ _. refl) c begin
              (purchase_body input n reserve_now settle_now)
              (weaken_Ends (Purchased input n reserve_now settle_now begin d s) d
                (λ _ x. SameItems d x × Later d x) _
                (purchase_body-Ends input n reserve_now settle_now begin d s)
                (λ r x (item, first, listing, inv, b). (b.items, b.later))))
    ]

pub place_bid-items :
    (c : Connection) (input : PlaceBidInput) (begin now reserve_now : ℕ) (d : Db)
    → IsSound d
    → SameItems d (place_bid c input begin now reserve_now d).1
place_bid-items c input begin now reserve_now d s =
    place_bid-rule c begin d (SameItems d) refl (λ _ _. refl) input now reserve_now s
      λ n a gp b x _ fp p. subst (SameItems d) (sym p.state) (ground arith)

pub cancel_bid-items :
    (c : Connection) (input : CancelBidInput) (begin : ℕ) (d : Db)
    → IsSound d
    → SameItems d (cancel_bid c input begin d).1
cancel_bid-items c input begin d s =
    cancel_bid-rule c begin d (SameItems d) refl (λ _ _. refl) input s
      λ a b x _ (own, active, low, (gp, fp, k, e)). subst (SameItems d) (sym e) refl

pub create_auction-items :
    (c : Connection) (prices : Prices) (input : CreateAuctionInput) (begin now : ℕ) (d : Db)
    → SameItems d (create_auction c prices input begin now d).1
create_auction-items c prices input begin now d =
    create_auction-rule c begin d (SameItems d) refl (λ _ _. refl) prices input now (λ _ _. refl)

pub settle_auction-items :
    (r : Reading) (auction_id : ℕ) (d : Db)
    → IsSound d
    → SameItems d (settle_auction r auction_id d).1
unfolding settle_auction
settle_auction-items r auction_id d s =
    run_tx-keeps (SameItems d) d refl (λ _ _. refl) r.connection r.begin
      (settle_auction_body auction_id r.now r.settle_now)
      (weaken_Ends (λ _. Due auction_id r.now d) d (λ _ x. SameItems d x × Later d x) _
        (body-Ends auction_id r.now r.settle_now r.begin d s)
        (λ _ x (a, found, on, past, k). (k.items, k.later)))
