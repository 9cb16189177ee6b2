-- ===== src/Auction/Answers.antt =====
-- PlaceBid: its answer.
use dragon_market.Base.{
  ℕ, ℤ, pos, negsuc, zero, suc, positive, ◌<◌, ◌≡◌, refl, ap, ◌∙◌, ◌+◌, ◌*◌, inl, inr, Bool, true,
  false, Option, none, some, ltb, ◌==◌, if◌then◌else◌, arith, Bool-cases,
}
use dragon_market.Repository.Tables.{find_row-fits}
use dragon_market.Repository.Rows.{Auction, GoldPouch, Bid, BidStatus, Reference, auction_active}
use dragon_market.Repository.Db.{Db, Error, Result, ok, err, Connection, is_some→eq}
use dragon_market.Repository.GoldPouches.{pouch_of}
use dragon_market.Repository.Auctions
use dragon_market.Repository.Auctions.{active_for_item, is_active_for}
use dragon_market.Repository.Bids.{auction_row, highest_active}
use dragon_market.Repository.Keys.{find_row-key}
use dragon_market.GoldPouch.Answers.{spent_on, reserve_outcome-answer}
use dragon_market.Auction.{PlaceBidInput, min_required, place_bid_body, place_bid}
use dragon_market.Auction.Accepted.{ceil_div-least}
use dragon_market.Auction.Outcomes.{place_outcome, place_bid_locked_lem}
use dragon_market.Atomic.{run_tx-result}
use dragon_market.Invariant.{IsSound, auction_key}

-- A bid of n is below the base price, or not five percent above the highest one.
abbrev pub is_too_low : ℕ → Auction → Option Bid → Bool
is_too_low n a none = ltb n a.base_price
is_too_low n a (some h) = ltb (n * 100) (h.amount * 105)

too_low_lem : (n : ℕ) (a : Auction) (o : Option Bid) → ltb n (min_required a o) ≡ is_too_low n a o
unfolding min_required
too_low_lem n a none = refl
too_low_lem n a (some h) =
    let (reaches, least) = ceil_div-least (h.amount * 105) 100 (omega arith) in
    ground (arith, reaches, least n)

-- The answer to a bid of n on an item's ACTIVE auction, by a guild with the pouch gp.
abbrev pub bid_verdict : PlaceBidInput → ℕ → ℕ → ℕ → ℕ → Db → Auction → GoldPouch → Result Bid
bid_verdict input n now reserve_now t d a gp =
    if a.owner_guild_id == input.guild_id
    then err Error.self_bid_not_allowed
    else if ltb a.end_time now
    then err Error.auction_expired
    else if is_too_low n a (highest_active a.id d)
    then err Error.bid_too_low
    else if ltb gp.total_balance (gp.reserved_balance + n)
    then err Error.insufficient_balance
    else if ltb gp.daily_spending_limit (spent_on reserve_now gp + n)
    then err Error.daily_limit_exceeded
    else ok (record {
      id = d.next.bids;
      auction_id = a.id;
      guild_id = input.guild_id;
      amount = n;
      status = BidStatus.active;
      created_at = t;
    })

module _ (input : PlaceBidInput) (n now reserve_now t : ℕ) (d : Db) (s : IsSound d) (a : Auction)
    (gp : GoldPouch) (fa : active_for_item input.item_id d ≡ some a)
    (fp : pouch_of input.guild_id d ≡ some gp) (z : 0 < n) where
  stored : auction_row a.id d ≡ some a
  stored = find_row-key auction_key _ d.auctions a s.auctions_distinct fa

  active : auction_active a.status ≡ true
  active = ground (arith, find_row-fits (is_active_for input.item_id) d.auctions a fa)

  outcome-verdict :
      (a.owner_guild_id == input.guild_id) ≡ false
      → (place_outcome input n now reserve_now t a gp d).0
        ≡ bid_verdict input n now reserve_now t d a gp
  outcome-verdict other =
      rw
        (
          too_low_lem n a (highest_active a.id d),
          reserve_outcome-answer gp n (some (Reference.auction a.id)) t d reserve_now
              (s.pouches input.guild_id gp fp),
        )
        (ground (arith, active, other, z))

  body-verdict :
      (place_bid_body input n now reserve_now t d).0 ≡ bid_verdict input n now reserve_now t d a gp
  unfolding place_bid_body Auctions.get_active_by_item_id
  body-verdict = elim (Bool-cases (a.owner_guild_id == input.guild_id)) [
    | inl own ↦ ground (arith, fa, own)
    | inr other ↦
        let (row, fg) = is_some→eq (s.members input.guild_id gp fp) in
        let locked =
          ap (λ r. r.0)
            (place_bid_locked_lem input n now reserve_now t a gp d stored (s.auctions a.id a stored)
              fp (s.pouches input.guild_id gp fp) fg)
          ∙ outcome-verdict other in
        ground (arith, fa, other, locked)
  ]

positive-above : (v : ℤ) (n : ℕ) → positive v ≡ some n → 0 < n
positive-above (pos zero) n e = cc
positive-above (pos (suc m)) n e = ground arith
positive-above (negsuc m) n e = cc

-- In a sound database, over a connection that begins and commits, PlaceBid of a positive amount on
-- an item with an ACTIVE auction, for a guild with a pouch, refuses the owner's guild, an auction
-- past its end, a bid below the base price where it is the first, or not five percent above the
-- highest ACTIVE bid, an amount above the balance that is not held, and one that would take the
-- spending of the day past its limit, in this order; else it answers with the new bid.
pub place_bid-verdict :
    (c : Connection) (input : PlaceBidInput) (n begin now reserve_now : ℕ) (d : Db) (a : Auction)
    (gp : GoldPouch)
    → IsSound d
    → c.begins ≡ true
    → c.commits ≡ true
    → positive input.amount ≡ some n
    → active_for_item input.item_id d ≡ some a
    → pouch_of input.guild_id d ≡ some gp
    → (place_bid c input begin now reserve_now d).0
      ≡ bid_verdict input n now reserve_now begin d a gp
unfolding place_bid
place_bid-verdict c input n begin now reserve_now d a gp s begins commits e fa fp =
    rw (e, place_bid)
      (run_tx-result c begin (place_bid_body input n now reserve_now) d begins commits
        ∙ body-verdict input n now reserve_now begin d s a gp fa fp
            (positive-above input.amount n e))
