-- ===== src/Auction.antt =====
-- AuctionService, internal/service/auction_service.go. Each method takes the readings of
-- time.Now() that it and the methods that it calls make, in their order.
pub mod Opening
pub mod Outcomes
pub mod Rows
pub mod Bidding
pub mod Cancelling
pub mod Rules
pub mod Gold
pub mod Accepted
pub mod Answers
pub mod Sound
use dragon_market.Base.{
  ℕ, ℤ, pos, positive, ◌+◌, ◌-◌, ◌*◌, ◌/◌, false, not, Option, none, some, ltb, leb, ◌==◌,
  if◌then◌else◌,
}
use dragon_market.Clock.{minute}
use dragon_market.Repository.Rows.{Auction, Bid, BidStatus, Reference, auction_active, bid_active}
use dragon_market.Repository.Db.{
  Db, Tx, Error, Result, ok, err, ◌>>=◌, ◌>>◌, pure, raise_if, is_not_found, on_not_found,
  Connection, run_tx,
}
use dragon_market.Repository.Bids
use dragon_market.Repository.Auctions
use dragon_market.GoldPouch.{reserve, release}

abbrev pub bid_extension_window : ℕ
bid_extension_window = 5 * minute

abbrev pub bid_extension_amount : ℕ
bid_extension_amount = 5 * minute

abbrev pub min_bid_numerator : ℕ
min_bid_numerator = 105

abbrev pub min_bid_denominator : ℕ
min_bid_denominator = 100

-- For the amounts of INTEGER columns, times 105, a + b - 1 is far below 2 ^ 63.
unfoldable pub ceil_div : ℕ → ℕ → ℕ
ceil_div a b = (a + b - 1) / b

pub record PlaceBidInput : Type 0 where
  pub item_id : ℕ
  pub guild_id : ℕ
  pub amount : ℤ

pub record CancelBidInput : Type 0 where
  pub item_id : ℕ
  pub bid_id : ℕ
  pub guild_id : ℕ

-- A query whose ErrNotFound is a case of a `switch`: the row or its absence.
unfoldable pub optional {ℓ} : {A : Type ℓ} → Tx A → Tx (Option A)
optional m t d =
    let (r, d') = m t d in
    elim r [
      | ok a ↦ (ok (some a), d')
      | err e ↦ if is_not_found e then (ok none, d') else (err e, d')
    ]

-- The floor: the base price, or 105 percent of the highest ACTIVE bid, rounded up.
unfoldable pub min_required : Auction → Option Bid → ℕ
min_required a none = a.base_price
min_required a (some highest) = ceil_div (highest.amount * min_bid_numerator) min_bid_denominator

-- `auction.EndTime.Sub(now) <= bidExtensionWindow`, past the test that now is not after EndTime.
unfoldable pub extend_if_late : Auction → ℕ → Tx (Unit {0})
extend_if_late a now =
    if leb (a.end_time - now) bid_extension_window
    then Auctions.update (record a { end_time = a.end_time + bid_extension_amount })
    else pure tt

-- The part of PlaceBid after the auction's row is locked.
unfoldable pub place_bid_locked : PlaceBidInput → ℕ → ℕ → ℕ → ℕ → Tx Bid
place_bid_locked input n auction_id now reserve_now = do
  auction ← Auctions.get_by_id auction_id
  raise_if (not (auction_active auction.status)) Error.auction_not_active
  raise_if (ltb auction.end_time now) Error.auction_expired
  highest ← optional (Bids.get_highest_active_by_auction_id auction.id)
  raise_if (ltb n (min_required auction highest)) Error.bid_too_low
  reserve input.guild_id (pos n) (some (Reference.auction auction.id)) reserve_now
  bid ← Bids.create auction.id input.guild_id n BidStatus.active
  extend_if_late auction now
  pure bid

-- The body of PlaceBid's transaction, for an amount n that passed the test in front of it.
unfoldable pub place_bid_body : PlaceBidInput → ℕ → ℕ → ℕ → Tx Bid
place_bid_body input n now reserve_now = do
  active_auction ←
      on_not_found Error.auction_not_found (Auctions.get_active_by_item_id input.item_id)
  raise_if (active_auction.owner_guild_id == input.guild_id) Error.self_bid_not_allowed
  place_bid_locked input n active_auction.id now reserve_now

unfoldable pub place_bid : Connection → PlaceBidInput → ℕ → ℕ → ℕ → Db → Result Bid × Db
place_bid c input begin now reserve_now d = elim (positive input.amount) [
  | none ↦ (err Error.invalid_amount, d)
  | some n ↦ run_tx c begin (place_bid_body input n now reserve_now) d
]

unfoldable pub cancel_bid_body : CancelBidInput → Tx (Unit {0})
cancel_bid_body input = do
  initial_bid ← on_not_found Error.bid_not_found (Bids.get_by_id input.bid_id)
  auction ← on_not_found Error.auction_not_found (Auctions.get_by_id initial_bid.auction_id)
  raise_if (not (auction.item_id == input.item_id)) Error.bid_not_found
  bid ← on_not_found Error.bid_not_found (Bids.get_by_id input.bid_id)
  raise_if (not (bid.guild_id == input.guild_id)) Error.not_bid_owner
  raise_if (not (auction_active auction.status)) Error.auction_not_active
  raise_if (not (bid_active bid.status)) Error.bid_not_active
  highest ← optional (Bids.get_highest_active_by_auction_id auction.id)
  raise_if (elim highest [ none ↦ false | some h ↦ h.id == bid.id ]) Error.bid_is_highest
  release bid.guild_id (pos bid.amount) (some (Reference.auction auction.id))
  Bids.update (record bid { status = BidStatus.cancelled })

unfoldable pub cancel_bid : Connection → CancelBidInput → ℕ → Db → Result (Unit {0}) × Db
cancel_bid c input begin d = run_tx c begin (cancel_bid_body input) d
