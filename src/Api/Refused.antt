-- ===== src/Api/Refused.antt =====
-- A request that is refused leaves no trace in the tables.
use mathlib.Core.Path.{subst}
use dragon_market.Base.{ℕ, positive, Option-cases, ◌≤◌, ◌≡◌, refl, sym, inl, inr, arith}
use dragon_market.Repository.Db.{Db, Result, ok, err, rollback, Connection}
use dragon_market.ItemService.{Prices, PurchaseInput, purchase_item, purchase_body}
use dragon_market.ItemService.Beside.{create_item-Undone}
use dragon_market.Auction.{
  PlaceBidInput, CancelBidInput, place_bid, place_bid_body, cancel_bid, cancel_bid_body,
}
use dragon_market.Auction.Opening.{CreateAuctionInput, create_auction, create_auction_body}
use dragon_market.Atomic.Reads.{Undone, run_tx-Undone}
use dragon_market.Api.{Response, Request}
use dragon_market.Api.Errors.{respond}
use dragon_market.Api.Router.{Dependencies, Route, serve}
use dragon_market.Api.Answers.{IsSuccess}
use dragon_market.Api.Served.{
  serve-rule, get_item-reads, list_items-reads, get_auction-reads, list_active_auctions-reads,
  get_wallet-reads,
}

purchase_item-Undone :
    (c : Connection) (input : PurchaseInput) (begin reserve_now settle_now : ℕ) (d : Db)
    → Undone d (purchase_item c input begin reserve_now settle_now d)
unfolding purchase_item
purchase_item-Undone c input begin reserve_now settle_now d =
    elim (Option-cases (positive input.quantity)) [
      | inl e ↦ rw (e, purchase_item) refl
      | inr (n, e) ↦
          rw (e, purchase_item)
            (run_tx-Undone c begin (purchase_body input n reserve_now settle_now) d)
    ]

create_auction-Undone :
    (c : Connection) (prices : Prices) (input : CreateAuctionInput) (begin now : ℕ) (d : Db)
    → Undone d (create_auction c prices input begin now d)
unfolding create_auction
create_auction-Undone c prices input begin now d =
    elim (Option-cases (positive input.duration_seconds)) [
      | inl e ↦ rw (e, create_auction) refl
      | inr (n, e) ↦
          rw (e, create_auction) (run_tx-Undone c begin (create_auction_body prices input n now) d)
    ]

place_bid-Undone :
    (c : Connection) (input : PlaceBidInput) (begin now reserve_now : ℕ) (d : Db)
    → Undone d (place_bid c input begin now reserve_now d)
unfolding place_bid
place_bid-Undone c input begin now reserve_now d = elim (Option-cases (positive input.amount)) [
  | inl e ↦ rw (e, place_bid) refl
  | inr (n, e) ↦
      rw (e, place_bid) (run_tx-Undone c begin (place_bid_body input n now reserve_now) d)
]

cancel_bid-Undone :
    (c : Connection) (input : CancelBidInput) (begin : ℕ) (d : Db)
    → Undone d (cancel_bid c input begin d)
unfolding cancel_bid
cancel_bid-Undone c input begin d = run_tx-Undone c begin (cancel_bid_body input) d

read-Undone : (A : Type 0) (d : Db) (r : Result A × Db) → r.1 ≡ d → Undone d r
read-Undone A d (ok a, x) e = tt
read-Undone A d (err f, x) e = subst (λ y. rollback d y ≡ y) (sym e) refl

-- An answer that is an error leaves the tables as they were.
abbrev Refused : Db → Response × Db → Type 0
Refused d x = 400 ≤ x.0.status → rollback d x.1 ≡ x.1

respond-Refused :
    (d : Db) (A : Type 0) (answer : A → Response) (r : Result A × Db)
    → IsSuccess answer
    → Undone d r
    → Refused d (respond answer r)
unfolding respond
respond-Refused d A answer (ok a, x) success u failed = absurd (omega (arith, success a))
respond-Refused d A answer (err e, x) success u failed = u

-- A request that is answered with a status of 400 or more has written nothing: every table is as it
-- was, only sequences may have moved on.
pub serve-refused :
    (deps : Dependencies) (route : Route) (req : Request) (d : Db)
    → 400 ≤ (serve deps route req d).0.status
    → rollback d (serve deps route req d).1 ≡ (serve deps route req d).1
serve-refused deps route req d =
    serve-rule d (λ A. Undone d) (Refused d) (λ status code h _. refl) (respond-Refused d) deps
      (record {
        create_item = λ input. create_item-Undone deps.pool deps.price_cache input deps.begin d;
        get_item = λ id. read-Undone _ d _ (get_item-reads deps.price_cache id deps.begin d);
        list_items = λ l o. read-Undone _ d _ (list_items-reads deps.price_cache l o deps.begin d);
        purchase_item = λ input.
            purchase_item-Undone deps.pool input deps.begin deps.reserve_now deps.settle_now d;
      })
      (record {
        create_auction =
            λ input. create_auction-Undone deps.pool deps.price_cache input deps.begin deps.now d;
        get_auction = λ id. read-Undone _ d _ (get_auction-reads id deps.begin d);
        list_active_auctions =
            λ l o. read-Undone _ d _ (list_active_auctions-reads l o deps.begin d);
        place_bid =
            λ input. place_bid-Undone deps.pool input deps.begin deps.now deps.reserve_now d;
        cancel_bid = λ input. cancel_bid-Undone deps.pool input deps.begin d;
      })
      (record { get_wallet = λ g. read-Undone _ d _ (get_wallet-reads g deps.now deps.begin d) })
      (λ _. refl) route req
