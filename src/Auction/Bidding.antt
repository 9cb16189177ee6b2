-- ===== src/Auction/Bidding.antt =====
-- PlaceBid in a sound database: the state that an accepted bid leaves, and the rule by which every
-- property of an accepted bid is proved.
use mathlib.Core.Path.{subst}
use dragon_market.Base.{
  ℕ, ◌≤◌, ◌<◌, ◌≡◌, sym, inl, inr, ◌+◌, ◌-◌, true, false, none, some, ◌==◌, arith, Option-cases,
  Bool-cases, some_eq,
}
use dragon_market.Repository.Rows.{
  Auction, GoldPouch, Bid, TransactionType, Reference, auction_active,
}
use dragon_market.Repository.Db.{Db, Result, ok, err, is_some→eq}
use dragon_market.Repository.GoldPouches.{pouch_of}
use dragon_market.Repository.Bids.{auction_row, highest_active}
use dragon_market.Repository.Auctions.{active_for_item}
use dragon_market.Repository.Auctions
use dragon_market.Repository.Bids
use dragon_market.Repository.Keys.{find_row-key}
use dragon_market.GoldPouch.{reset_day}
use dragon_market.GoldPouch.Outcomes.{written, reserve_outcome}
use dragon_market.GoldPouch.Endings.{Reserved, reserve_outcome-Atomic, reserve_missing}
use dragon_market.Auction.{PlaceBidInput, min_required, optional, place_bid_locked, place_bid_body}
use dragon_market.Auction.Outcomes.{
  new_bid, with_bid, extended, after_reserve, place_outcome, place_bid_locked_lem,
}
use dragon_market.Atomic.{Atomic, weaken}
use dragon_market.Invariant.{IsSound, auction_key, auction_row-id}

-- The database after Reserve in an accepted bid.
abbrev pub held_db : Auction → GoldPouch → ℕ → ℕ → ℕ → Db → Db
held_db a gp n reserve_now t d =
    written (record (reset_day reserve_now gp) { reserved_balance = gp.reserved_balance + n })
      TransactionType.reserve n (some (Reference.auction a.id)) t d

-- An accepted bid of n on a, paid from gp: the tests that it passed, the bid, and the new state.
pub record Placed (input : PlaceBidInput) (n now reserve_now t : ℕ) (d : Db) (a : Auction)
    (gp : GoldPouch) (b : Bid) (d' : Db) : Type 0 where
  pub live : auction_active a.status ≡ true
  pub in_time : now ≤ a.end_time
  pub enough : min_required a (highest_active a.id d) ≤ n
  pub above_zero : 0 < n
  pub covered : n ≤ gp.total_balance - gp.reserved_balance
  pub in_limit : (reset_day reserve_now gp).spent_today + n ≤ gp.daily_spending_limit
  pub bid : b ≡ new_bid a.id input.guild_id n t (held_db a gp n reserve_now t d)
  pub state : d' ≡ extended a now (with_bid b (held_db a gp n reserve_now t d))

module _ (input : PlaceBidInput) (n now reserve_now t : ℕ) (d : Db) (s : IsSound d) where
  after_reserve-Placed :
      (a : Auction) (gp : GoldPouch) (r : Result (Unit {0}) × Db)
      → auction_active a.status ≡ true
      → now ≤ a.end_time
      → min_required a (highest_active a.id d) ≤ n
      → Atomic (λ _. Reserved gp n (some (Reference.auction a.id)) t d reserve_now) d r
      → Atomic (Placed input n now reserve_now t d a gp) d (after_reserve input n now t a r)
  after_reserve-Placed a gp (err e, d') l i m h = h
  after_reserve-Placed a gp (ok _, d') l i m (z, c, k, e) = record {
    live = l;
    in_time = i;
    enough = m;
    above_zero = z;
    covered = c;
    in_limit = k;
    bid = rw e;
    state = rw e;
  }

  place_outcome-Placed :
      (a : Auction) (gp : GoldPouch)
      → pouch_of input.guild_id d ≡ some gp
      → Atomic
          (Placed input n now reserve_now t d a gp)
          d
          (place_outcome input n now reserve_now t a gp d)
  place_outcome-Placed a gp fp = ground (
    arith,
    after_reserve-Placed a gp
        (reserve_outcome gp n (some (Reference.auction a.id)) t d reserve_now),
    reserve_outcome-Atomic gp n (some (Reference.auction a.id)) t d reserve_now
        (s.pouches input.guild_id gp fp),
  )

  -- A statement on the results of the locked part, by what it is of an accepted bid.
  module _ (Q : Bid → Db → Type 0) where
    no_auction :
        (id : ℕ)
        → auction_row id d ≡ none
        → Atomic Q d (place_bid_locked input n id now reserve_now t d)
    unfolding place_bid_locked Auctions.get_by_id
    no_auction id e = ground arith

    no_pouch :
        (id : ℕ) (a : Auction)
        → auction_row id d ≡ some a
        → pouch_of input.guild_id d ≡ none
        → Atomic Q d (place_bid_locked input n id now reserve_now t d)
    unfolding place_bid_locked Auctions.get_by_id Bids.get_highest_active_by_auction_id optional
    no_pouch id a fa fp =
        ground (
          arith,
          reserve_missing input.guild_id n (some (Reference.auction a.id)) t d reserve_now fp,
        )

    with_pouch :
        (a : Auction) (gp : GoldPouch)
        → auction_row a.id d ≡ some a
        → pouch_of input.guild_id d ≡ some gp
        → ((b : Bid) (d' : Db) → Placed input n now reserve_now t d a gp b d' → Q b d')
        → Atomic Q d (place_bid_locked input n a.id now reserve_now t d)
    with_pouch a gp fa fp use_it =
        let (row, fr) = is_some→eq (s.members input.guild_id gp fp) in
        rw
          (place_bid_locked_lem input n now reserve_now t a gp d fa (s.auctions a.id a fa) fp
            (s.pouches input.guild_id gp fp) fr)
          (weaken (Placed input n now reserve_now t d a gp) d Q _ (place_outcome-Placed a gp fp)
            use_it)

    pub place_bid_locked-rule :
        (id : ℕ)
        → ((a : Auction) (gp : GoldPouch) (b : Bid) (d' : Db)
            → auction_row id d ≡ some a
            → pouch_of input.guild_id d ≡ some gp
            → Placed input n now reserve_now t d a gp b d'
            → Q b d')
        → Atomic Q d (place_bid_locked input n id now reserve_now t d)
    place_bid_locked-rule id use_it = elim (Option-cases (auction_row id d)) [
      | inl e ↦ no_auction id e
      | inr (a, e) ↦ (elim (Option-cases (pouch_of input.guild_id d)) [
        | inl ep ↦ no_pouch id a e ep
        | inr (gp, ep) ↦
            subst (λ k. Atomic Q d (place_bid_locked input n k now reserve_now t d))
              (auction_row-id id d a e)
              (with_pouch a gp
                (subst (λ k. auction_row k d ≡ some a) (sym (auction_row-id id d a e)) e) ep
                (λ b d'. use_it a gp b d' e ep))
      ])
    ]

    -- The same for the whole body, with the auction that it looks up by the item.
    pub place_bid_body-rule :
        ((a : Auction) (gp : GoldPouch) (b : Bid) (d' : Db)
          → active_for_item input.item_id d ≡ some a
          → (a.owner_guild_id == input.guild_id) ≡ false
          → auction_row a.id d ≡ some a
          → pouch_of input.guild_id d ≡ some gp
          → Placed input n now reserve_now t d a gp b d'
          → Q b d')
        → Atomic Q d (place_bid_body input n now reserve_now t d)
    unfolding place_bid_body Auctions.get_active_by_item_id
    place_bid_body-rule use_it = elim (Option-cases (active_for_item input.item_id d)) [
      | inl e ↦ ground arith
      | inr (a, e) ↦ (elim (Bool-cases (a.owner_guild_id == input.guild_id)) [
        | inl own ↦ ground arith
        | inr other ↦
            let stored = find_row-key auction_key _ d.auctions a s.auctions_distinct e in
            let locked = place_bid_locked-rule a.id λ a' gp b d' e' ep p.
              use_it a gp b d' e other stored ep
                (subst (λ x. Placed input n now reserve_now t d x gp b d') (some_eq e' stored) p) in
            ground (arith, locked)
      ])
    ]
