-- ===== src/Invariant/Retire.antt =====
-- The two other kinds of change that the invariant allows: a credit, and the end of an ACTIVE bid
-- together with the gold that it held.
use mathlib.Core.Option
use mathlib.Core.Path.{subst}
use dragon_market.Base.{
  ℕ, ◌≤◌, ◌<◌, ◌≡◌, refl, inl, inr, ◌+◌, true, false, Option, some, ◌==◌, if◌then◌else◌, arith,
  tests, Bool-cases, Option-cases,
}
use dragon_market.Repository.Tables.{find_row-fits}
use dragon_market.Repository.Rows.{
  GoldPouch, Bid, BidStatus, TransactionType, Reference, bid_active,
}
use dragon_market.Repository.Db.{Db, is_some}
use dragon_market.Repository.GoldPouches.{pouch_of}
use dragon_market.Repository.Bids.{auction_row, bid_row, put_bid_status}
use dragon_market.Repository.Keys.{
  update_rows-Below, update_rows-Distinct, find_row-update_rows, sum_by-update_rows, le-sum_by,
}
use dragon_market.GoldPouch.Outcomes.{IsPouch, pouch_of-guild_id, written}
use dragon_market.GoldPouch.Effects.{pouch_of-written, written-Distinct}
use dragon_market.Invariant.{IsSound, bid_key, held_by}

pub bid_row-id : (id : ℕ) (d : Db) (b : Bid) → bid_row id d ≡ some b → b.id ≡ id
bid_row-id id d b e = omega (tests, find_row-fits _ d.bids b e)

-- In a sound database the guild of an ACTIVE bid has a pouch, which holds the bid's amount.
pub covered-active :
    (id : ℕ) (b : Bid) (d : Db)
    → IsSound d
    → bid_row id d ≡ some b
    → bid_active b.status ≡ true
    → (gp : GoldPouch) × (pouch_of b.guild_id d ≡ some gp) × (b.amount ≤ gp.reserved_balance)
covered-active id b d s found active = elim (Option-cases (pouch_of b.guild_id d)) [
  | inl e ↦ absurd (
      ground (
        arith,
        s.balanced b.guild_id,
        s.bids id b found,
        le-sum_by bid_key (held_by b.guild_id) id d.bids b found,
      ))
  | inr (gp, e) ↦ (
    gp,
    e,
    ground (arith, s.balanced b.guild_id, le-sum_by bid_key (held_by b.guild_id) id d.bids b found),
  )
]

module _ (g : ℕ) (old new : GoldPouch) (kind : TransactionType) (n : ℕ)
    (reference : Option Reference) (t : ℕ) (d : Db) (s : IsSound d)
    (found : pouch_of g d ≡ some old) (same_guild : new.guild_id ≡ g) (same_id : new.id ≡ old.id)
    (valid : IsPouch new) where
  after-pouch_of :
      (h : ℕ)
      → pouch_of h (written new kind n reference t d) ≡ (if h == g then some new else pouch_of h d)
  after-pouch_of h =
      pouch_of-written g old new d kind n reference t h found same_guild
        (pouch_of-guild_id g d old found) same_id

  -- The reserved balance stays: a credit.
  pub written-IsSound :
      new.reserved_balance ≡ old.reserved_balance → IsSound (written new kind n reference t d)
  written-IsSound same = record {
    pouches = λ h gp e. ground (arith, after-pouch_of h, s.pouches h gp);
    members = λ h gp e. ground (arith, after-pouch_of h, s.members h gp, s.members g old found);
    pouches_distinct = written-Distinct g old new d kind n reference t s.pouches_distinct;
    bids_distinct = s.bids_distinct;
    bids_below = s.bids_below;
    bids = s.bids;
    auctions_below = s.auctions_below;
    auctions_distinct = s.auctions_distinct;
    auctions = s.auctions;
    balanced = λ h. ground (arith, after-pouch_of h, s.balanced h, s.balanced g);
  }

  -- A bid of the guild ends, and its amount leaves the reserved balance.
  pub retired-IsSound :
      (b : Bid) (status : BidStatus)
      → bid_row b.id d ≡ some b
      → bid_active b.status ≡ true
      → bid_active status ≡ false
      → b.guild_id ≡ g
      → new.reserved_balance + b.amount ≡ old.reserved_balance
      → IsSound (put_bid_status b.id status (written new kind n reference t d))
  retired-IsSound b status stored active ended own less = record {
    pouches = λ h gp e. ground (arith, after-pouch_of h, s.pouches h gp);
    members = λ h gp e. ground (arith, after-pouch_of h, s.members h gp, s.members g old found);
    pouches_distinct = written-Distinct g old new d kind n reference t s.pouches_distinct;
    bids_distinct =
        update_rows-Distinct bid_key _ (λ r. record r { status = status }) (λ r. refl) d.bids
          s.bids_distinct;
    bids_below =
        update_rows-Below bid_key _ (λ r. record r { status = status }) (λ r. refl) d.next.bids
          d.bids s.bids_below;
    bids = λ id c e. retired_row id c e;
    auctions_below = s.auctions_below;
    auctions_distinct = s.auctions_distinct;
    auctions = s.auctions;
    balanced = λ h. ground (
      arith,
      after-pouch_of h,
      s.balanced h,
      s.balanced g,
      sum_by-update_rows bid_key (held_by h) b.id (λ r. record r { status = status }) d.bids b
          s.bids_distinct stored,
    );
  }
    where
      seen :
          (id : ℕ)
          → bid_row id (put_bid_status b.id status (written new kind n reference t d)) ≡ (
              if id == b.id
              then Option.map {A = Bid} (λ r. record r { status = status }) (bid_row id d)
              else bid_row id d)
      seen id =
          find_row-update_rows bid_key b.id id (λ r. record r { status = status }) d.bids
            (λ r. refl)

      retired_row :
          (id : ℕ) (c : Bid)
          → bid_row id (put_bid_status b.id status (written new kind n reference t d)) ≡ some c
          → (0 < c.amount) × (is_some (auction_row c.auction_id d) ≡ true)
      retired_row id c e = elim (Option-cases (bid_row id d)) [
        | inl none_there ↦ absurd (ground (arith, seen id, none_there))
        | inr (c', e') ↦ (elim (Bool-cases (id == b.id)) [
          | inl hit ↦
              subst (λ x. (0 < x.amount) × (is_some (auction_row x.auction_id d) ≡ true))
                (let p : record c' { status = status } ≡ c = ground (arith, seen id, e') in p)
                (s.bids id c' e')
          | inr miss ↦
              subst (λ x. (0 < x.amount) × (is_some (auction_row x.auction_id d) ≡ true))
                (let p : c' ≡ c = ground (arith, seen id, e') in p) (s.bids id c' e')
        ])
      ]
