-- ===== src/Auction/Cancelling.antt =====
-- CancelBid in a sound database: its result on every branch, and the invariant after it.
use mathlib.Core.Path.{subst}
use dragon_market.Base.{
  ℕ, ◌≤◌, ◌<◌, ◌≡◌, refl, sym, ◌∙◌, inl, inr, ◌-◌, Bool, true, false, not, Option, none, some, ◌==◌,
  if◌then◌else◌, arith, Option-cases, Bool-cases,
}
use dragon_market.Repository.Rows.{
  Auction, GoldPouch, Guild, Bid, BidStatus, TransactionType, Reference, auction_active, bid_active,
}
use dragon_market.Repository.Db.{Db, Error, Result, ok, err, is_some→eq, Connection}
use dragon_market.Repository.GoldPouches.{pouch_of}
use dragon_market.Repository.TransactionLogs.{guild_row}
use dragon_market.Repository.Bids.{auction_row, bid_row, highest_active, put_bid_status}
use dragon_market.Repository.Bids
use dragon_market.Repository.Auctions
use dragon_market.GoldPouch.Outcomes.{IsPouch, written, release_lem, pouch_of-guild_id}
use dragon_market.Auction.{CancelBidInput, optional, cancel_bid_body, cancel_bid}
use dragon_market.Atomic.{Atomic, Later, weaken, run_tx-keeps_atomic, run_tx-result}
use dragon_market.Invariant.{IsSound, rollback-IsSound}
use dragon_market.Invariant.Retire.{covered-active, retired-IsSound, bid_row-id}

-- The pouch and the database after the release of a bid.
abbrev pub freed : GoldPouch → ℕ → GoldPouch
freed gp n = record gp { reserved_balance = gp.reserved_balance - n }

abbrev pub cancelled_db : Auction → Bid → GoldPouch → ℕ → Db → Db
cancelled_db a b gp t d = put_bid_status b.id BidStatus.cancelled (
    written (freed gp b.amount) TransactionType.release b.amount (some (Reference.auction a.id)) t
      d)

-- Whether the bid is the one that GetHighestActiveByAuctionID finds.
abbrev pub is_highest : Bid → Option Bid → Bool
is_highest b none = false
is_highest b (some h) = h.id == b.id

-- The tests in their order.
abbrev pub cancel_outcome :
    CancelBidInput → Auction → Bid → GoldPouch → ℕ → Db → Result (Unit {0}) × Db
cancel_outcome input a b gp t d =
    if not (a.item_id == input.item_id)
    then (err Error.bid_not_found, d)
    else if not (b.guild_id == input.guild_id)
    then (err Error.not_bid_owner, d)
    else if not (auction_active a.status)
    then (err Error.auction_not_active, d)
    else if not (bid_active b.status)
    then (err Error.bid_not_active, d)
    else if is_highest b (highest_active a.id d)
    then (err Error.bid_is_highest, d)
    else (ok tt, cancelled_db a b gp t d)

module _ (input : CancelBidInput) (t : ℕ) (d : Db) where
  cancel_unknown :
      bid_row input.bid_id d ≡ none → cancel_bid_body input t d ≡ (err Error.bid_not_found, d)
  unfolding cancel_bid_body Bids.get_by_id
  cancel_unknown e = ground arith

  cancel_found :
      (a : Auction) (b : Bid) (gp : GoldPouch) {row : Guild}
      → bid_row input.bid_id d ≡ some b
      → auction_row b.auction_id d ≡ some a
      → 0 < b.amount
      → pouch_of b.guild_id d ≡ some gp
      → b.amount ≤ gp.reserved_balance
      → IsPouch gp
      → guild_row b.guild_id d ≡ some row
      → cancel_bid_body input t d ≡ cancel_outcome input a b gp t d
  unfolding cancel_bid_body Bids.get_by_id Auctions.get_by_id Bids.get_highest_active_by_auction_id
      optional Bids.update
  cancel_found a b gp fb fa z fp c v fg = ground (
    arith,
    release_lem b.guild_id gp b.amount (some (Reference.auction a.id)) t d fp v fg,
    pouch_of-guild_id b.guild_id d gp fp,
  )

  -- A bid that is no longer ACTIVE is refused before its pouch is looked at.
  cancel_over :
      (a : Auction) (b : Bid) (gp : GoldPouch)
      → bid_row input.bid_id d ≡ some b
      → auction_row b.auction_id d ≡ some a
      → bid_active b.status ≡ false
      → cancel_bid_body input t d ≡ cancel_outcome input a b gp t d
  unfolding cancel_bid_body Bids.get_by_id Auctions.get_by_id
  cancel_over a b gp fb fa over = ground arith

-- The answer of CancelBid to a bid that is there, on an auction that is there.
abbrev pub cancel_verdict : CancelBidInput → Auction → Bid → Option Bid → Result (Unit {0})
cancel_verdict input a b highest =
    if not (a.item_id == input.item_id)
    then err Error.bid_not_found
    else if not (b.guild_id == input.guild_id)
    then err Error.not_bid_owner
    else if not (auction_active a.status)
    then err Error.auction_not_active
    else if not (bid_active b.status)
    then err Error.bid_not_active
    else if is_highest b highest
    then err Error.bid_is_highest
    else ok tt

-- How the body ends: with the database as it was, or with an ACTIVE bid of the caller, which is
-- not the highest, cancelled.
abbrev pub Cancelled : CancelBidInput → ℕ → Db → Auction → Bid → Db → Type 0
Cancelled input t d a b d' =
    (b.guild_id ≡ input.guild_id)
    × (bid_active b.status ≡ true)
    × (is_highest b (highest_active a.id d) ≡ false)
    × ((gp : GoldPouch) × (pouch_of b.guild_id d ≡ some gp)
        × (b.amount ≤ gp.reserved_balance)
        × (d' ≡ cancelled_db a b gp t d))

module _ (input : CancelBidInput) (t : ℕ) (d : Db) (s : IsSound d) where
  module _ (a : Auction) (b : Bid) (fb : bid_row input.bid_id d ≡ some b)
      (fa : auction_row b.auction_id d ≡ some a) where
    Cancelled-now :
        (gp : GoldPouch)
        → pouch_of b.guild_id d ≡ some gp
        → b.amount ≤ gp.reserved_balance
        → b.guild_id ≡ input.guild_id
        → bid_active b.status ≡ true
        → is_highest b (highest_active a.id d) ≡ false
        → Cancelled input t d a b (cancelled_db a b gp t d)
    Cancelled-now gp fp c own active low = (own, active, low, (gp, fp, c, refl))

    outcome_lem :
        (gp : GoldPouch)
        → pouch_of b.guild_id d ≡ some gp
        → b.amount ≤ gp.reserved_balance
        → ((cancel_outcome input a b gp t d).0 ≡ cancel_verdict input a b (highest_active a.id d))
          × Atomic (λ _. Cancelled input t d a b) d (cancel_outcome input a b gp t d)
    outcome_lem gp fp c = (ground arith, ground (arith, Cancelled-now gp fp c))

    active_lem :
        bid_active b.status ≡ true
        → ((cancel_bid_body input t d).0 ≡ cancel_verdict input a b (highest_active a.id d))
          × Atomic (λ _. Cancelled input t d a b) d (cancel_bid_body input t d)
    active_lem active =
        let (gp, fp, c) = covered-active input.bid_id b d s fb active in
        let (row, fg) = is_some→eq (s.members b.guild_id gp fp) in
        rw
          (cancel_found input t d a b gp fb fa (s.bids input.bid_id b fb).0 fp c
            (s.pouches b.guild_id gp fp) fg)
          (outcome_lem gp fp c)

    over_lem :
        bid_active b.status ≡ false
        → ((cancel_bid_body input t d).0 ≡ cancel_verdict input a b (highest_active a.id d))
          × Atomic (λ _. Cancelled input t d a b) d (cancel_bid_body input t d)
    unfolding cancel_bid_body Bids.get_by_id Auctions.get_by_id
    over_lem over = (ground arith, ground arith)

    pub cancel_bid_body_lem :
        ((cancel_bid_body input t d).0 ≡ cancel_verdict input a b (highest_active a.id d))
        × Atomic (λ _. Cancelled input t d a b) d (cancel_bid_body input t d)
    cancel_bid_body_lem = elim (Bool-cases (bid_active b.status)) [
      | inl active ↦ active_lem active
      | inr over ↦ over_lem over
    ]

    pub Cancelled-IsSound : (d' : Db) → Cancelled input t d a b d' → IsSound d' × Later d d'
    Cancelled-IsSound d' (own, active, low, (gp, fp, c, e)) =
        subst (λ x. IsSound x × Later d x) (sym e)
          (
            retired-IsSound b.guild_id gp (freed gp b.amount) TransactionType.release b.amount
                (some (Reference.auction a.id)) t d s fp (pouch_of-guild_id b.guild_id d gp fp) refl
                (ground (arith, s.pouches b.guild_id gp fp)) b BidStatus.cancelled stored active
                refl refl (omega arith),
            ground arith,
          )
      where
        stored : bid_row b.id d ≡ some b
        stored = subst (λ k. bid_row k d ≡ some b) (sym (bid_row-id input.bid_id d b fb)) fb

  -- What holds after each bid that is cancelled holds wherever the body ends well.
  pub cancel_bid_body-rule :
      (P : Db → Type 0)
      → ((a : Auction) (b : Bid) (d' : Db)
          → bid_row input.bid_id d ≡ some b
          → auction_row b.auction_id d ≡ some a
          → Cancelled input t d a b d'
          → P d')
      → Atomic (λ _. P) d (cancel_bid_body input t d)
  cancel_bid_body-rule P k = elim (Option-cases (bid_row input.bid_id d)) [
    | inl e ↦ rw (cancel_unknown input t d e)
    | inr (b, fb) ↦
        (let (a, fa) = is_some→eq (s.bids input.bid_id b fb).1 in
          weaken (λ _. Cancelled input t d a b) d (λ _. P) _ (cancel_bid_body_lem a b fb fa).1
            (λ _ d'. k a b d' fb fa))
  ]

-- CancelBid keeps a sound database sound, however it ends.
pub cancel_bid-IsSound :
    (c : Connection) (input : CancelBidInput) (begin : ℕ) (d : Db)
    → IsSound d
    → IsSound (cancel_bid c input begin d).1
unfolding cancel_bid
cancel_bid-IsSound c input begin d s =
    run_tx-keeps_atomic IsSound d s (rollback-IsSound d s) c begin (cancel_bid_body input) (
      cancel_bid_body-rule input begin d s (λ d'. IsSound d' × Later d d')
        λ a b d' fb fa. Cancelled-IsSound input begin d s a b fb fa d')

-- In a sound database, over a connection that begins and commits, CancelBid of a bid that is there
-- answers by its own tests alone, in their order: an auction of another item, another guild's bid,
-- an auction or a bid that is not ACTIVE, the highest bid. Else it succeeds, since the release of
-- the bid's gold never fails.
pub cancel_bid-verdict :
    (c : Connection) (input : CancelBidInput) (begin : ℕ) (d : Db) (a : Auction) (b : Bid)
    → IsSound d
    → c.begins ≡ true
    → c.commits ≡ true
    → bid_row input.bid_id d ≡ some b
    → auction_row b.auction_id d ≡ some a
    → (cancel_bid c input begin d).0 ≡ cancel_verdict input a b (highest_active a.id d)
unfolding cancel_bid
cancel_bid-verdict c input begin d a b s begins commits fb fa =
    run_tx-result c begin (cancel_bid_body input) d begins commits
    ∙ (cancel_bid_body_lem input begin d s a b fb fa).0
