-- ===== src/Tests/Auctions.antt =====
-- An instance of each result on bids, cancellations and settlements.
use dragon_market.Base.{◌≡◌, refl, arith}
use dragon_market.Repository.Tables.{find_row, select, update_rows}
use dragon_market.Repository.Rows.{Auction}
use dragon_market.Repository.Db.{Error, ok, err, run_tx, end_tx}
use dragon_market.Repository.Bids
use dragon_market.Repository.Bids.{bid_row, highest_active}
use dragon_market.Repository.Auctions
use dragon_market.Repository.GoldPouches
use dragon_market.GoldPouch.{reserve, write_log}
use dragon_market.GoldPouch.Effects.{total_gold}
use dragon_market.Auction.{
  CancelBidInput, place_bid, place_bid_body, place_bid_locked, min_required, ceil_div,
  extend_if_late, optional, cancel_bid,
}
use dragon_market.Auction.Sound.{place_bid-IsSound}
use dragon_market.Auction.Accepted.{Accepted, place_bid-Accepted}
use dragon_market.Auction.Answers.{bid_verdict, place_bid-verdict}
use dragon_market.Auction.Cancelling.{cancel_bid-IsSound, cancel_bid-verdict}
use dragon_market.Settlement.{settle_auction, tick}
use dragon_market.Settlement.Closing.{Due}
use dragon_market.Settlement.Closing.{expired}
use dragon_market.Settlement.Unsold.{settle_auction-unsold}
use dragon_market.Repository.Auctions.{put_auction}
use dragon_market.Settlement.Sweep.{
  settle_auction-Due, settle_auction-IsSound, settle_auction-once, tick-keeps,
}
use dragon_market.Invariant.{IsSound}
use dragon_market.Tests.Market.{
  working, opened, a_pouch, opened-IsSound, an_auction, first_input, second_input, first_bid,
  second_bid, second_bid-IsSound, late, closed, the_first, first_bid-runs, closed-runs, first_row,
  auction_row_now, extended_auction,
}

place_bid-IsSound_example : IsSound first_bid.1
place_bid-IsSound_example = place_bid-IsSound working first_input 10 20 30 opened opened-IsSound

place_bid-Accepted_example : (a : Auction) × Accepted first_input 20 opened the_first first_bid.1 a
place_bid-Accepted_example =
    place_bid-Accepted working first_input 10 20 30 opened the_first first_bid.1 opened-IsSound
      first_bid-runs

settle_auction-Due_example : Due 4 2_000_000_000_000 second_bid.1 closed.1
settle_auction-Due_example =
    settle_auction-Due late 4 second_bid.1 closed.1 second_bid-IsSound closed-runs

settle_auction-IsSound_example : IsSound closed.1
settle_auction-IsSound_example = settle_auction-IsSound late 4 second_bid.1 second_bid-IsSound

tick-keeps_example :
    IsSound (tick (λ _. late) 2_000_000_000_000 second_bid.1)
    × (total_gold (tick (λ _. late) 2_000_000_000_000 second_bid.1) ≡ total_gold second_bid.1)
tick-keeps_example = tick-keeps (λ _. late) 2_000_000_000_000 second_bid.1 second_bid-IsSound

settle_auction-once_example :
    settle_auction late 4 closed.1 ≡ (err Error.auction_not_eligible, closed.1)
settle_auction-once_example =
    settle_auction-once late late 4 second_bid.1 closed.1 second_bid-IsSound refl closed-runs

abbrev withdrawal : CancelBidInput
withdrawal = record { item_id = 5; bid_id = 1; guild_id = 2 }

cancel_bid-IsSound_example : IsSound (cancel_bid working withdrawal 70 second_bid.1).1
cancel_bid-IsSound_example =
    cancel_bid-IsSound working withdrawal 70 second_bid.1 second_bid-IsSound

-- Guild 2 is outbid, so its bid can be withdrawn.
cancel_bid-verdict_example : (cancel_bid working withdrawal 70 second_bid.1).0 ≡ ok tt
unfolding place_bid place_bid_body place_bid_locked run_tx end_tx Auctions.get_active_by_item_id
    Auctions.get_by_id optional Bids.get_highest_active_by_auction_id Bids.create extend_if_late
    Auctions.update min_required ceil_div reserve write_log GoldPouches.get_by_guild_id
    GoldPouches.update find_row select update_rows Bids.first_by_amount
cancel_bid-verdict_example =
    cancel_bid-verdict working withdrawal 70 second_bid.1 extended_auction the_first
      second_bid-IsSound refl refl first_row auction_row_now

-- 105 percent of 150, rounded up, is 158.
place_bid-verdict_example :
    (place_bid working second_input 40 50 60 opened).0
    ≡ bid_verdict second_input 200 50 60 40 opened an_auction (a_pouch 3)
unfolding find_row
place_bid-verdict_example =
    place_bid-verdict working second_input 200 40 50 60 opened an_auction (a_pouch 3) opened-IsSound
      refl refl refl refl refl

-- Before the first bid.
settle_auction-unsold_example :
    settle_auction late 4 opened ≡ (ok tt, put_auction (expired an_auction) opened)
unfolding find_row select Bids.first_by_amount
settle_auction-unsold_example =
    settle_auction-unsold late 4 opened an_auction opened-IsSound refl refl refl refl (omega arith)
      refl
