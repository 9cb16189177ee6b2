-- ===== src/Settlement.antt =====
-- Settler, internal/settlement/settlement.go. A sweep lists the auctions that have ended and
-- settles each in a transaction of its own.
pub mod Round
pub mod Losers
pub mod History
pub mod Marked
pub mod Ended
pub mod Winner
pub mod Closing
pub mod Sweep
pub mod Unsold
pub mod Sold
use dragon_market.Base.{
  ℕ, pos, Bool, true, false, not, ◌||◌, Option, none, some, List, [], ◌∷◌, ltb, ◌==◌, if◌then◌else◌,
}
use dragon_market.Repository.Rows.{
  Auction, AuctionStatus, Bid, BidStatus, TransactionType, Reference, auction_active, bid_active,
}
use dragon_market.Repository.Db.{
  Db, Tx, Error, Result, ok, err, ◌>>=◌, ◌>>◌, pure, raise_if, Connection, run_tx,
}
use dragon_market.Repository.Bids
use dragon_market.Repository.Auctions
use dragon_market.Repository.Inventories
use dragon_market.GoldPouch.{settle, credit, release}
use dragon_market.Auction.{optional}

-- The loop over the auction's bids: each ACTIVE one but the winner's is released and marked LOST.
unfoldable pub release_losers : ℕ → Reference → List Bid → Tx (Unit {0})
release_losers winner_id reference [] = pure tt
release_losers winner_id reference (b ∷ bs) =
    let rest = release_losers winner_id reference bs in
    if b.id == winner_id || not (bid_active b.status) then rest else (do
      release b.guild_id (pos b.amount) (some reference)
      Bids.update (record b { status = BidStatus.lost })
      rest)

unfoldable pub settle_with_winner : Auction → Bid → Reference → ℕ → Tx (Unit {0})
settle_with_winner auction winner reference settle_now = do
  settle winner.guild_id (pos winner.amount) TransactionType.auction_win (some reference) settle_now
  credit auction.owner_guild_id (pos winner.amount) (some reference)
  seller_inv ← Inventories.get_by_guild_and_item auction.owner_guild_id auction.item_id
  Inventories.delete seller_inv.id
  _inv ← Inventories.upsert winner.guild_id auction.item_id 1
  Bids.update (record winner { status = BidStatus.won })
  all_bids ← Bids.list_by_auction_id auction.id
  release_losers winner.id reference all_bids

-- The `switch` on the winner.
unfoldable pub settle_bids : Auction → Option Bid → ℕ → Tx (Unit {0})
settle_bids auction none settle_now = pure tt
settle_bids auction (some winner) settle_now =
    settle_with_winner auction winner (Reference.auction auction.id) settle_now

-- The body of SettleAuction's transaction.
unfoldable pub settle_auction_body : ℕ → ℕ → ℕ → Tx (Unit {0})
settle_auction_body auction_id now settle_now = do
  auction ← Auctions.get_by_id auction_id
  raise_if (not (auction_active auction.status) || not (ltb auction.end_time now))
      Error.auction_not_eligible
  winner ← optional (Bids.get_highest_active_by_auction_id auction.id)
  settle_bids auction winner settle_now
  Auctions.update (record auction { status = AuctionStatus.expired })

-- What one call of SettleAuction meets: its connection, and the readings of the clock at the start
-- of its transaction, at its own test and in Settle.
pub record Reading : Type 0 where
  pub connection : Connection
  pub begin : ℕ
  pub now : ℕ
  pub settle_now : ℕ

unfoldable pub settle_auction : Reading → ℕ → Db → Result (Unit {0}) × Db
settle_auction r auction_id d =
    run_tx r.connection r.begin (settle_auction_body auction_id r.now r.settle_now) d

-- The loop of Tick: an auction that cannot be settled is left for the next sweep.
unfoldable pub settle_all : (ℕ → Reading) → List Auction → Db → Db
settle_all readings [] d = d
settle_all readings (a ∷ rest) d =
    settle_all readings rest (settle_auction (readings a.id) a.id d).1

-- Tick, where the listing of the auctions succeeds.
unfoldable pub tick : (ℕ → Reading) → ℕ → Db → Db
unfolding settle_all Auctions.list_active_ending_before
tick readings cutoff d = elim (Auctions.list_active_ending_before cutoff 0 d).0 [
  | ok auctions ↦ settle_all readings auctions d
  | err _ ↦ d
]
