-- ===== src/Settlement/Unsold.antt =====
-- SettleAuction of an auction that nobody bids for.
use mathlib.Core.Path.{subst}
use dragon_market.Base.{ℕ, ◌≡◌, ◌<◌, refl, sym, ◌∙◌, true, none, some, arith}
use dragon_market.Repository.Rows.{Auction, auction_active}
use dragon_market.Repository.Db.{Db, ok, run_tx, end_tx, bind-ok, ◌>>=◌}
use dragon_market.Repository.Bids
use dragon_market.Repository.Bids.{auction_row, highest_active}
use dragon_market.Repository.Auctions
use dragon_market.Repository.Auctions.{put_auction}
use dragon_market.Auction.{optional}
use dragon_market.Settlement.{Reading, settle_bids, settle_auction_body, settle_auction}
use dragon_market.Settlement.Closing.{expired, rest_of, expire-ok, highest-read}
use dragon_market.Invariant.{IsSound, auction_row-id}

module _ (auction_id now settle_now t : ℕ) (d : Db) (s : IsSound d) (a : Auction)
    (found : auction_row auction_id d ≡ some a) (here : auction_row a.id d ≡ some a)
    (unsold : highest_active a.id d ≡ none) where
  rest-unsold :
      (optional (Bids.get_highest_active_by_auction_id a.id) >>= rest_of a settle_now) t d
      ≡ (ok tt, put_auction (expired a) d)
  unfolding settle_bids
  rest-unsold =
      bind-ok (optional (Bids.get_highest_active_by_auction_id a.id)) (rest_of a settle_now) t d
        none d (rw unsold at (highest-read a.id t d))
      ∙ expire-ok a t d s here

  body-unsold :
      auction_active a.status ≡ true
      → a.end_time < now
      → settle_auction_body auction_id now settle_now t d ≡ (ok tt, put_auction (expired a) d)
  unfolding settle_auction_body Auctions.get_by_id
  body-unsold active past = ground (arith, rest-unsold)

-- In a sound database and over a connection that begins and commits, SettleAuction of an ACTIVE
-- auction past its end that has no ACTIVE bid succeeds: the auction is EXPIRED, and nothing else
-- changes.
pub settle_auction-unsold :
    (r : Reading) (auction_id : ℕ) (d : Db) (a : Auction)
    → IsSound d
    → r.connection.begins ≡ true
    → r.connection.commits ≡ true
    → auction_row auction_id d ≡ some a
    → auction_active a.status ≡ true
    → a.end_time < r.now
    → highest_active a.id d ≡ none
    → settle_auction r auction_id d ≡ (ok tt, put_auction (expired a) d)
unfolding settle_auction run_tx end_tx
settle_auction-unsold r auction_id d a s begins commits found active past unsold =
    rw
      (
        begins,
        commits,
        body-unsold auction_id r.now r.settle_now r.begin d s a found
            (subst (λ k. auction_row k d ≡ some a) (sym (auction_row-id auction_id d a found))
              found)
            unsold active past,
      )
      refl
