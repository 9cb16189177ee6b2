-- ===== src/Auction/Outcomes.antt =====
-- PlaceBid after the auction's row is locked: its result on every branch.
use dragon_market.Base.{
  ℕ, ◌<◌, ◌≡◌, ◌+◌, ◌-◌, true, not, none, some, List, ltb, leb, if◌then◌else◌, arith,
}
use dragon_market.Repository.Tables.{find_row}
use dragon_market.Repository.Rows.{
  Auction, GoldPouch, Guild, Bid, BidStatus, Reference, auction_active,
}
use dragon_market.Repository.Db.{Db, Error, Result, ok, err}
use dragon_market.Repository.GoldPouches.{pouch_of}
use dragon_market.Repository.TransactionLogs.{guild_row}
use dragon_market.Repository.Bids
use dragon_market.Repository.Bids.{auction_row, highest_active, add_bid}
use dragon_market.Repository.Auctions
use dragon_market.Repository.Auctions.{is_rival, put_auction}
use dragon_market.GoldPouch.Outcomes.{IsPouch, reserve_outcome, reserve_lem}
use dragon_market.Auction.{
  PlaceBidInput, min_required, optional, extend_if_late, place_bid_locked, bid_extension_window,
  bid_extension_amount,
}

-- A row that the CHECKs and the partial unique index of auctions admit.
pub record IsAuction (a : Auction) (rows : List Auction) : Type 0 where
  pub lasting : a.start_time < a.end_time
  pub alone : auction_active a.status ≡ true → find_row (is_rival a) rows ≡ none

abbrev pub new_bid : ℕ → ℕ → ℕ → ℕ → Db → Bid
new_bid auction_id g n t d = record {
  id = d.next.bids;
  auction_id = auction_id;
  guild_id = g;
  amount = n;
  status = BidStatus.active;
  created_at = t;
}

abbrev pub with_bid : Bid → Db → Db
with_bid b d = add_bid b (record d { next = record (d.next) { bids = d.next.bids + 1 } })

abbrev pub extended : Auction → ℕ → Db → Db
extended a now d =
    if leb (a.end_time - now) bid_extension_window
    then put_auction (record a { end_time = a.end_time + bid_extension_amount }) d
    else d

module _ (input : PlaceBidInput) (n now t : ℕ) (a : Auction) where
  abbrev pub after_reserve : Result (Unit {0}) × Db → Result Bid × Db
  after_reserve (err e, d') = (err e, d')
  after_reserve (ok _, d') = (
    ok (new_bid a.id input.guild_id n t d'),
    extended a now (with_bid (new_bid a.id input.guild_id n t d') d'),
  )

module _ (input : PlaceBidInput) (n now reserve_now t : ℕ) (a : Auction) (gp : GoldPouch)
    (d : Db) where
  abbrev pub place_outcome : Result Bid × Db
  place_outcome =
      if not (auction_active a.status)
      then (err Error.auction_not_active, d)
      else if ltb a.end_time now
      then (err Error.auction_expired, d)
      else if ltb n (min_required a (highest_active a.id d))
      then (err Error.bid_too_low, d)
      else after_reserve input n now t a
          (reserve_outcome gp n (some (Reference.auction a.id)) t d reserve_now)

  -- With the auction's row locked and the bidder's pouch there, in rows that the schema admits,
  -- PlaceBid refuses an auction that is not ACTIVE, one past its end and a bid below the minimum, in
  -- this order and with nothing written. Else it ends as Reserve does; where the amount is held, it
  -- adds an ACTIVE bid and moves the end of an auction that has five minutes or less to run.
  pub place_bid_locked_lem :
      {row : Guild}
      → auction_row a.id d ≡ some a
      → IsAuction a d.auctions
      → pouch_of input.guild_id d ≡ some gp
      → IsPouch gp
      → guild_row input.guild_id d ≡ some row
      → place_bid_locked input n a.id now reserve_now t d ≡ place_outcome
  unfolding place_bid_locked Bids.get_highest_active_by_auction_id Bids.create Auctions.get_by_id
      optional extend_if_late Auctions.update
  place_bid_locked_lem found va fp vp e = ground (
    arith,
    reserve_lem input.guild_id gp n (some (Reference.auction a.id)) t d reserve_now fp vp e,
  )
