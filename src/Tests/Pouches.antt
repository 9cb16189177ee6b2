-- ===== src/Tests/Pouches.antt =====
-- An instance of each result on pouches, the highest bid and the loop over the losing bids.
use dragon_market.Base.{pos, ◌≡◌, refl, true, Option, some, [], ◌∷◌, arith}
use dragon_market.Repository.Tables.{find_row, select, update_rows}
use dragon_market.Repository.Rows.{GoldPouch, Bid, BidStatus, TransactionType, Reference}
use dragon_market.Repository.Db.{Db, run_tx, end_tx}
use dragon_market.Repository.Auctions
use dragon_market.Repository.Bids
use dragon_market.Repository.Bids.{bid_row, highest_active}
use dragon_market.Repository.Bids.Highest.{IsBefore, highest_active-first}
use dragon_market.Repository.GoldPouches
use dragon_market.GoldPouch.{reserve, release, settle, credit, write_log}
use dragon_market.GoldPouch.Answers.{reserve_answer, settle_answer, reserve-answer, settle-answer}
use dragon_market.GoldPouch.Outcomes.{
  IsPouch, release_outcome, credit_outcome, release_lem, credit_lem,
}
use dragon_market.Auction.{
  place_bid, place_bid_body, place_bid_locked, min_required, ceil_div, extend_if_late, optional,
}
use dragon_market.Settlement.{release_losers}
use dragon_market.Settlement.Losers.{release_losers_lem, AllCleared}
use dragon_market.Tests.Market.{
  opened, a_pouch, second_bid, second_bid-IsSound, the_first, first_row,
}

abbrev held_pouch : GoldPouch
held_pouch = record (a_pouch 2) { reserved_balance = 150 }

abbrev held : Db
held = record opened { gold_pouches = held_pouch ∷ [] }

abbrev sale : Option Reference
sale = some (Reference.auction 4)

held_pouch-IsPouch : IsPouch held_pouch
held_pouch-IsPouch = ground arith

reserve-answer_example :
    reserve 2 (pos 400) sale 30 10 held ≡ reserve_answer held_pouch 400 sale 10 held 30
unfolding find_row
reserve-answer_example =
    reserve-answer 2 held_pouch 400 sale 10 held 30 refl held_pouch-IsPouch refl

release_lem_example : release 2 (pos 150) sale 10 held ≡ release_outcome held_pouch 150 sale 10 held
unfolding find_row
release_lem_example = release_lem 2 held_pouch 150 sale 10 held refl held_pouch-IsPouch refl

settle-answer_example :
    settle 2 (pos 150) TransactionType.auction_win sale 30 10 held
    ≡ settle_answer held_pouch 150 sale 10 held 30 TransactionType.auction_win
unfolding find_row
settle-answer_example =
    settle-answer 2 held_pouch 150 sale 10 held 30 refl held_pouch-IsPouch refl
      TransactionType.auction_win

credit_lem_example : credit 2 (pos 150) sale 10 held ≡ credit_outcome held_pouch 150 sale 10 held
unfolding find_row
credit_lem_example = credit_lem 2 held_pouch 150 sale 10 held refl held_pouch-IsPouch refl

abbrev the_second : Bid
the_second = record {
  id = 2;
  auction_id = 4;
  guild_id = 3;
  amount = 200;
  status = BidStatus.active;
  created_at = 40;
}

second_is_highest : highest_active 4 second_bid.1 ≡ some the_second
unfolding place_bid place_bid_body place_bid_locked run_tx end_tx Auctions.get_active_by_item_id
    Auctions.get_by_id optional Bids.get_highest_active_by_auction_id Bids.create extend_if_late
    Auctions.update min_required ceil_div reserve write_log GoldPouches.get_by_guild_id
    GoldPouches.update find_row select update_rows Bids.first_by_amount
second_is_highest = refl

highest_active-first_example :
    ((bid_row 2 second_bid.1 ≡ some the_second) × (true ≡ true) × (the_second.auction_id ≡ 4))
    × IsBefore the_second the_first
highest_active-first_example =
    highest_active-first 4 second_bid.1 the_second 1 the_first second_bid-IsSound.bids_distinct
      second_is_highest first_row refl refl

-- The loop over both bids after the second has won.
release_losers_lem_example :
    AllCleared 2
      (Reference.auction 4)
      80
      second_bid.1
      (the_first ∷ the_second ∷ [])
      (release_losers 2 (Reference.auction 4) (the_first ∷ the_second ∷ []) 80 second_bid.1)
unfolding find_row
release_losers_lem_example =
    release_losers_lem 2 (Reference.auction 4) 80 second_bid.1 (the_first ∷ the_second ∷ [])
      second_bid-IsSound (refl, (refl, tt)) ((λ _. first_row), ((λ e. absurd (ground arith)), tt))
