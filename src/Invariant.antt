-- ===== src/Invariant.antt =====
-- The invariant of the whole database: what the schema enforces on each table, and that the gold
-- a pouch holds in reserve is exactly what its guild's ACTIVE bids are worth.
pub mod Retire
pub mod History
pub mod Pouches
pub mod Side
pub mod Opening
use dragon_market.Base.{
  ℕ, ◌≡◌, refl, ◌≤◌, ◌<◌, ◌+◌, Bool, true, false, ◌&&◌, Option, none, some, List, ◌==◌,
  if◌then◌else◌, arith, tests,
}
use dragon_market.Repository.Tables.{find_row-fits}
use dragon_market.Repository.Rows.{GoldPouch, Auction, Bid, bid_active}
use dragon_market.Repository.Db.{Db, is_some, rollback}
use dragon_market.Repository.GoldPouches.{pouch_of}
use dragon_market.Repository.TransactionLogs.{guild_row}
use dragon_market.Repository.Bids.{auction_row, bid_row}
use dragon_market.Repository.Keys.{Distinct, Below, Below-mono, sum_by}
use dragon_market.Atomic.{Later}
use dragon_market.GoldPouch.Outcomes.{IsPouch}
use dragon_market.GoldPouch.Effects.{guild_key, reserved_of}
use dragon_market.Auction.Outcomes.{IsAuction}

abbrev pub bid_key : Bid → ℕ
bid_key b = b.id

abbrev pub auction_key : Auction → ℕ
auction_key a = a.id

pub auction_row-id : (id : ℕ) (d : Db) (a : Auction) → auction_row id d ≡ some a → a.id ≡ id
auction_row-id id d a e = omega (tests, find_row-fits _ d.auctions a e)

-- What a bid holds of a guild's gold.
abbrev pub held_by : ℕ → Bid → ℕ
held_by g b = if b.guild_id == g && bid_active b.status then b.amount else 0

abbrev pub active_sum : ℕ → Db → ℕ
active_sum g d = sum_by (held_by g) d.bids

pub record IsSound (d : Db) : Type 0 where
  pub pouches : (g : ℕ) (gp : GoldPouch) → pouch_of g d ≡ some gp → IsPouch gp
  pub members : (g : ℕ) (gp : GoldPouch) → pouch_of g d ≡ some gp → is_some (guild_row g d) ≡ true
  pub pouches_distinct : Distinct guild_key d.gold_pouches
  pub bids_distinct : Distinct bid_key d.bids
  pub bids_below : Below bid_key d.next.bids d.bids
  pub bids :
      (id : ℕ) (b : Bid)
      → bid_row id d ≡ some b
      → (0 < b.amount) × (is_some (auction_row b.auction_id d) ≡ true)
  pub auctions_below : Below auction_key d.next.auctions d.auctions
  pub auctions_distinct : Distinct auction_key d.auctions
  pub auctions : (id : ℕ) (a : Auction) → auction_row id d ≡ some a → IsAuction a d.auctions
  pub balanced : (g : ℕ) → reserved_of g d ≡ active_sum g d

-- Sequences that have moved on do not disturb it.
pub rollback-IsSound : (d : Db) → IsSound d → (d' : Db) → Later d d' → IsSound (rollback d d')
rollback-IsSound d s d' later = record {
  pouches = s.pouches;
  members = s.members;
  pouches_distinct = s.pouches_distinct;
  bids_distinct = s.bids_distinct;
  bids = s.bids;
  bids_below = Below-mono bid_key d.next.bids d'.next.bids d.bids later.0 s.bids_below;
  auctions_below =
      Below-mono auction_key d.next.auctions d'.next.auctions d.auctions later.1 s.auctions_below;
  auctions_distinct = s.auctions_distinct;
  auctions = s.auctions;
  balanced = s.balanced;
}
