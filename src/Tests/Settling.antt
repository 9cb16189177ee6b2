-- ===== src/Tests/Settling.antt =====
-- The market with one bid, whose auction has ended.
use dragon_market.Base.{◌≡◌, refl, [], ◌∷◌, arith}
use dragon_market.Repository.Tables.{find_row, select, delete_rows}
use dragon_market.Repository.Rows.{GoldPouch}
use dragon_market.Repository.Db.{Db, ok}
use dragon_market.Repository.Bids.{first_by_amount}
use dragon_market.Settlement.{Reading, settle_auction}
use dragon_market.Settlement.Closing.{Due}
use dragon_market.Settlement.Sold.{settle_auction-sold}
use dragon_market.Invariant.{IsSound}
use dragon_market.Tests.Market.{opened, a_pouch, an_auction, the_first, working, sword, owned}

abbrev bidder_pouch : GoldPouch
bidder_pouch = record (a_pouch 2) { reserved_balance = 150 }

abbrev with_bid : Db
with_bid = record opened {
  gold_pouches = a_pouch 1 ∷ bidder_pouch ∷ a_pouch 3 ∷ [];
  bids = the_first ∷ [];
  next = record (opened.next) { bids = 2 };
}

with_bid-IsSound : IsSound with_bid
unfolding find_row
with_bid-IsSound = record {
  pouches = λ g gp e. ground arith;
  members = λ g gp e. ground arith;
  pouches_distinct = (refl, (refl, (refl, tt)));
  bids_distinct = (refl, tt);
  bids_below = ground arith;
  bids = λ id b e. ground arith;
  auctions_below = ground arith;
  auctions_distinct = (refl, tt);
  auctions = λ id a e. ground arith;
  balanced = λ g. ground arith;
}

abbrev reading : Reading
reading = record { connection = working; begin = 2000; now = 2000; settle_now = 2000 }

settle_auction-sold_example :
    (x : Db) × (settle_auction reading 4 with_bid ≡ (ok tt, x)) × Due 4 2000 with_bid x
unfolding find_row select delete_rows first_by_amount
settle_auction-sold_example =
    settle_auction-sold reading 4 with_bid an_auction the_first bidder_pouch (a_pouch 1) owned sword
      with_bid-IsSound refl refl refl refl (omega arith) refl refl refl (cc) (omega arith)
      (omega arith) refl refl refl
