-- ===== src/Auction/Rules.antt =====
-- The calls of AuctionService that write, by what a statement on the state after them needs: that it
-- holds before, after a rollback, and after a call that succeeds.
use mathlib.Core.Path.{subst}
use dragon_market.Base.{ℕ, positive, ◌≡◌, sym, inl, inr, some, arith, Option-cases}
use dragon_market.Repository.Rows.{Auction, GoldPouch, Item, Bid}
use dragon_market.Repository.Db.{Db, Connection, rollback}
use dragon_market.Repository.GoldPouches.{pouch_of}
use dragon_market.Repository.Bids.{auction_row, bid_row}
use dragon_market.Auction.{
  PlaceBidInput, CancelBidInput, place_bid_body, place_bid, cancel_bid_body, cancel_bid,
}
use dragon_market.Auction.Bidding.{Placed, place_bid_body-rule}
use dragon_market.Auction.Cancelling.{Cancelled, Cancelled-IsSound, cancel_bid_body-rule}
use dragon_market.Auction.Opening.{CreateAuctionInput, create_auction, create_auction_body}
use dragon_market.Auction.Opening.Sound.{opened_db}
use dragon_market.Auction.Opening.Opened.{Opened, new_auction, create_auction_body-Ends}
use dragon_market.Auction.Sound.{Placed-IsSound}
use dragon_market.ItemService.{Prices}
use dragon_market.Atomic.{Later, weaken_Ends, run_tx-keeps, run_tx-keeps_atomic}
use dragon_market.Invariant.{IsSound}

module _ (c : Connection) (begin : ℕ) (d : Db) (P : Db → Type 0) (before : P d)
    (restored : (x : Db) → Later d x → P (rollback d x)) where
  pub place_bid-rule :
      (input : PlaceBidInput) (now reserve_now : ℕ)
      → IsSound d
      → ((n : ℕ) (a : Auction) (gp : GoldPouch) (b : Bid) (x : Db)
          → auction_row a.id d ≡ some a
          → pouch_of input.guild_id d ≡ some gp
          → Placed input n now reserve_now begin d a gp b x
          → P x)
      → P (place_bid c input begin now reserve_now d).1
  unfolding place_bid
  place_bid-rule input now reserve_now s step = elim (Option-cases (positive input.amount)) [
    | inl e ↦ rw (e, place_bid) before
    | inr (n, e) ↦
        rw (e, place_bid)
          (run_tx-keeps_atomic P d before restored c begin (place_bid_body input n now reserve_now)
            (place_bid_body-rule input n now reserve_now begin d s (λ _ x. P x × Later d x)
              λ a gp b x _ _ fa fp p. (
                step n a gp b x fa fp p,
                (Placed-IsSound input n now reserve_now begin d s a gp b x fa fp p).1,
              )))
  ]

  pub cancel_bid-rule :
      (input : CancelBidInput)
      → IsSound d
      → ((a : Auction) (b : Bid) (x : Db)
          → bid_row input.bid_id d ≡ some b
          → Cancelled input begin d a b x
          → P x)
      → P (cancel_bid c input begin d).1
  unfolding cancel_bid
  cancel_bid-rule input s step =
      run_tx-keeps_atomic P d before restored c begin (cancel_bid_body input) (
        cancel_bid_body-rule input begin d s (λ x. P x × Later d x)
          λ a b x fb fa k. (step a b x fb k, (Cancelled-IsSound input begin d s a b fb fa x k).1))

  pub create_auction-rule :
      (prices : Prices) (input : CreateAuctionInput) (now : ℕ)
      → ((n : ℕ) (item : Item) → P (opened_db (new_auction prices input n now item d) d))
      → P (create_auction c prices input begin now d).1
  unfolding create_auction
  create_auction-rule prices input now step =
      elim (Option-cases (positive input.duration_seconds)) [
        | inl e ↦ rw (e, create_auction) before
        | inr (n, e) ↦
            rw (e, create_auction)
              (run_tx-keeps P d before restored c begin (create_auction_body prices input n now) (
                weaken_Ends (Opened prices input n now begin d) d (λ _ x. P x × Later d x) _
                  (create_auction_body-Ends prices input n now begin d)
                  (λ v x (item, inv, o).
                    subst (λ y. P y × Later d y) (sym o.state)
                      (step n item, (omega arith, omega arith)))))
      ]
