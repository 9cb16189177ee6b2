-- ===== src/System/History.antt =====
-- What becomes of auctions and bids while the program runs.
use mathlib.Core.Path.{subst}
use dragon_market.Base.{
  ℕ, ℤ, positive, ◌≡◌, ◌+◌, ◌-◌, refl, sym, inl, inr, some, List, [], ◌∷◌, ◌&&◌, leb, true,
  Bool-cases, Option, arith, Option-cases,
}
use dragon_market.Repository.Tables.{select}
use dragon_market.Repository.Rows.{
  Auction, Bid, BidStatus, GoldPouch, ItemRarity, TransactionType, Reference, auction_active,
}
use dragon_market.Repository.Db.{Db, Connection, rollback}
use dragon_market.Repository.Items
use dragon_market.Repository.Items.{put_price}
use dragon_market.Repository.Inventories
use dragon_market.Repository.Listings
use dragon_market.Repository.Auctions
use dragon_market.Repository.Auctions.{put_auction}
use dragon_market.Repository.Bids.{auction_row, bid_row}
use dragon_market.GoldPouch.Outcomes.{written}
use dragon_market.Auction.{
  PlaceBidInput, CancelBidInput, place_bid, cancel_bid, bid_extension_window, bid_extension_amount,
}
use dragon_market.Auction.Outcomes.{with_bid, extended}
use dragon_market.Auction.Bidding.{Placed, held_db}
use dragon_market.Auction.Cancelling.{Cancelled, cancelled_db, freed}
use dragon_market.Auction.Rules.{place_bid-rule, cancel_bid-rule, create_auction-rule}
use dragon_market.Auction.Opening.{CreateAuctionInput, create_auction}
use dragon_market.Auction.Opening.Sound.{opened_db}
use dragon_market.Auction.Opening.Opened.{new_auction}
use dragon_market.ItemService.{
  Prices, CreateItemInput, PurchaseInput, create_item, create_item_body, create_listing,
  purchase_item, purchase_body,
}
use dragon_market.ItemService.Admission.{create_item-rule}
use dragon_market.ItemService.Purchase.{Purchased, purchase_body-Ends}
use dragon_market.Settlement.{Reading, settle_auction, settle_auction_body, settle_all, tick}
use dragon_market.Settlement.Closing.{Due, body-Ends}
use dragon_market.Settlement.Sweep.{settle_auction-IsSound}
use dragon_market.Oracle.{GoCache, update_prices}
use dragon_market.Oracle.Round.{update_prices-rule}
use dragon_market.Atomic.{Later, Ends, weaken_Ends, run_tx-keeps}
use dragon_market.Invariant.{IsSound}
use dragon_market.Invariant.Retire.{bid_row-id}
use dragon_market.Invariant.History.{
  Ages, Ages-same, Ages-refl, Ages-trans, put_bid_status-Ages, put_auction-Ages, add_bid-Ages,
  add_auction-Ages,
}

restored : (d x : Db) → Later d x → Ages d (rollback d x)
restored d x _ = Ages-same d (rollback d x) refl refl

extended-Ages :
    (a : Auction) (now : ℕ) (d : Db)
    → auction_row a.id d ≡ some a
    → auction_active a.status ≡ true
    → Ages d (extended a now d)
extended-Ages a now d found on = elim (Bool-cases (leb (a.end_time - now) bid_extension_window)) [
  | inl late ↦
      rw late
        (put_auction-Ages d a a.status (a.end_time + bid_extension_amount) found on (omega arith))
  | inr early ↦ rw early (Ages-refl d)
]

Placed-Ages :
    (input : PlaceBidInput) (n now reserve_now t : ℕ) (d : Db) (a : Auction) (gp : GoldPouch)
    (b : Bid) (x : Db)
    → auction_row a.id d ≡ some a
    → Placed input n now reserve_now t d a gp b x
    → Ages d x
Placed-Ages input n now reserve_now t d a gp b x found p =
    let bidden = with_bid b (held_db a gp n reserve_now t d) in
    subst (Ages d) (sym p.state) (
      Ages-trans d bidden (extended a now bidden) (add_bid-Ages d bidden b refl refl)
        (extended-Ages a now bidden found p.live))

pub place_bid-Ages :
    (c : Connection) (input : PlaceBidInput) (begin now reserve_now : ℕ) (d : Db)
    → IsSound d
    → Ages d (place_bid c input begin now reserve_now d).1
place_bid-Ages c input begin now reserve_now d s =
    place_bid-rule c begin d (Ages d) (Ages-refl d) (restored d) input now reserve_now s
      λ n a gp b x found _ p. Placed-Ages input n now reserve_now begin d a gp b x found p

Cancelled-Ages :
    (input : CancelBidInput) (t : ℕ) (d : Db) (a : Auction) (b : Bid) (x : Db)
    → bid_row input.bid_id d ≡ some b
    → Cancelled input t d a b x
    → Ages d x
Cancelled-Ages input t d a b x found (own, on, low, (gp, fp, c, e)) =
    let freed_db =
      written (freed gp b.amount) TransactionType.release b.amount (some (Reference.auction a.id)) t
        d in
    let stored =
      subst (λ k. bid_row k d ≡ some b) (sym (bid_row-id input.bid_id d b found)) found in
    subst (Ages d) (sym e) (
      Ages-trans d freed_db (cancelled_db a b gp t d) (Ages-same d freed_db refl refl)
        (put_bid_status-Ages freed_db b BidStatus.cancelled stored on refl))

pub cancel_bid-Ages :
    (c : Connection) (input : CancelBidInput) (begin : ℕ) (d : Db)
    → IsSound d
    → Ages d (cancel_bid c input begin d).1
cancel_bid-Ages c input begin d s =
    cancel_bid-rule c begin d (Ages d) (Ages-refl d) (restored d) input s
      λ a b x found k. Cancelled-Ages input begin d a b x found k

pub create_auction-Ages :
    (c : Connection) (prices : Prices) (input : CreateAuctionInput) (begin now : ℕ) (d : Db)
    → Ages d (create_auction c prices input begin now d).1
create_auction-Ages c prices input begin now d =
    create_auction-rule c begin d (Ages d) (Ages-refl d) (restored d) prices input now λ n item.
      add_auction-Ages d (opened_db (new_auction prices input n now item d) d)
        (new_auction prices input n now item d) refl refl

pub purchase_item-Ages :
    (c : Connection) (input : PurchaseInput) (begin reserve_now settle_now : ℕ) (d : Db)
    → IsSound d
    → Ages d (purchase_item c input begin reserve_now settle_now d).1
unfolding purchase_item
purchase_item-Ages c input begin reserve_now settle_now d s =
    elim (Option-cases (positive input.quantity)) [
      | inl e ↦ rw (e, purchase_item) (Ages-refl d)
      | inr (n, e) ↦
          rw (e, purchase_item)
            (run_tx-keeps (Ages d) d (Ages-refl d) (restored d) c begin
              (purchase_body input n reserve_now settle_now)
              (weaken_Ends (Purchased input n reserve_now settle_now begin d s) d
                (λ _ x. Ages d x × Later d x) _
                (purchase_body-Ends input n reserve_now settle_now begin d s)
                (λ r x (item, first, listing, inv, b). (Ages-same d x b.bids b.auctions, b.later))))
    ]

apart :
    (prices : Prices) (input : CreateItemInput) (rarity : ItemRarity) (price quantity g t : ℕ)
    (d : Db)
    → Ends
        (λ _ x. (x.bids ≡ d.bids) × (x.auctions ≡ d.auctions) × Later d x)
        d
        (create_item_body prices input rarity price quantity g t d)
unfolding create_item_body create_listing Items.create Inventories.create Inventories.insert
    Listings.create
apart prices input rarity price quantity g t d = ground arith

pub create_item-Ages :
    (c : Connection) (prices : Prices) (input : CreateItemInput) (begin : ℕ) (d : Db)
    → Ages d (create_item c prices input begin d).1
create_item-Ages c prices input begin d =
    create_item-rule c prices input begin d (λ r. Ages d r.1) (λ e. Ages-refl d)
      λ rarity price quantity g _.
        run_tx-keeps (Ages d) d (Ages-refl d) (restored d) c begin
          (create_item_body prices input rarity price quantity g)
          (weaken_Ends (λ _ x. (x.bids ≡ d.bids) × (x.auctions ≡ d.auctions) × Later d x) d
            (λ _ x. Ages d x × Later d x) _ (apart prices input rarity price quantity g begin d)
            (λ _ x (same_bids, same_auctions, l). (Ages-same d x same_bids same_auctions, l)))

pub settle_auction-Ages :
    (r : Reading) (auction_id : ℕ) (d : Db) → IsSound d → Ages d (settle_auction r auction_id d).1
unfolding settle_auction
settle_auction-Ages r auction_id d s =
    run_tx-keeps (Ages d) d (Ages-refl d) (restored d) r.connection r.begin
      (settle_auction_body auction_id r.now r.settle_now)
      (weaken_Ends (λ _. Due auction_id r.now d) d (λ _ x. Ages d x × Later d x) _
        (body-Ends auction_id r.now r.settle_now r.begin d s)
        (λ _ x (a, found, on, past, k). (k.ages, k.later)))

settle_all-Ages :
    (readings : ℕ → Reading) (todo : List Auction) (d : Db)
    → IsSound d
    → Ages d (settle_all readings todo d)
unfolding settle_all
settle_all-Ages readings [] d s = Ages-refl d
settle_all-Ages readings (a ∷ rest) d s =
    let x = (settle_auction (readings a.id) a.id d).1 in
    Ages-trans d x (settle_all readings rest x) (settle_auction-Ages (readings a.id) a.id d s)
      (settle_all-Ages readings rest x (settle_auction-IsSound (readings a.id) a.id d s))

pub tick-Ages :
    (readings : ℕ → Reading) (cutoff : ℕ) (d : Db) → IsSound d → Ages d (tick readings cutoff d)
unfolding tick Auctions.list_active_ending_before
tick-Ages readings cutoff d s =
    settle_all-Ages readings
      (select (λ a. auction_active a.status && leb a.end_time cutoff) d.auctions) d s

pub update_prices-Ages :
    (g : GoCache) (answers : ℕ → Option ℤ) (t : ℕ) (x : g.State × Db)
    → Ages x.1 (update_prices g answers t x).1
update_prices-Ages g answers t x =
    update_prices-rule g (Ages x.1)
      (λ id n d k. Ages-trans x.1 d _ k (Ages-same d (put_price id n d) refl refl)) answers t x
      (Ages-refl x.1)
