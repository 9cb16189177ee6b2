-- ===== src/Auction/Sound.antt =====
-- PlaceBid and the invariant of the database.
use dragon_market.Base.{
  ℕ, positive, ◌<◌, ◌≡◌, refl, inl, inr, ◌+◌, ◌-◌, true, Option, some, leb, ◌==◌, if◌then◌else◌,
  arith, Bool-cases, Option-cases, sym,
}
use mathlib.Core.Path.{subst}
use dragon_market.Repository.Rows.{Auction, GoldPouch, Bid, TransactionType, Reference}
use dragon_market.Repository.Db.{Db, is_some, Connection}
use dragon_market.Repository.GoldPouches.{pouch_of}
use dragon_market.Repository.Bids.{auction_row}
use dragon_market.Repository.Keys.{
  find_row-append, Below-mono, append-Distinct, append-Below, sum_by-append,
}
use dragon_market.GoldPouch.{reset_day}
use dragon_market.GoldPouch.Outcomes.{IsPouch, pouch_of-guild_id, written}
use dragon_market.GoldPouch.Effects.{pouch_of-written, written-Distinct}
use dragon_market.Auction.{
  PlaceBidInput, place_bid_body, place_bid, bid_extension_window, bid_extension_amount,
}
use dragon_market.Auction.Outcomes.{IsAuction, new_bid, with_bid, extended}
use dragon_market.Auction.Rows.{put_auction-IsSound}
use dragon_market.Auction.Bidding.{Placed, held_db, place_bid_body-rule}
use dragon_market.Atomic.{Later, run_tx-keeps_atomic}
use dragon_market.Invariant.{IsSound, rollback-IsSound, bid_key, held_by}

-- A reserve and a bid of the same amount by one guild.
module _ (g : ℕ) (old new : GoldPouch) (n : ℕ) (reference : Option Reference)
    (t bid_t auction_id : ℕ) (d : Db) (s : IsSound d) (found : pouch_of g d ≡ some old)
    (same_guild : new.guild_id ≡ g) (same_id : new.id ≡ old.id)
    (held : new.reserved_balance ≡ old.reserved_balance + n) (valid : IsPouch new)
    (above_zero : 0 < n) (stored : is_some (auction_row auction_id d) ≡ true) where
  abbrev reserved_db : Db
  reserved_db = written new TransactionType.reserve n reference t d

  abbrev the_bid : Bid
  the_bid = new_bid auction_id g n bid_t reserved_db

  after-pouch_of :
      (h : ℕ)
      → pouch_of h (with_bid the_bid reserved_db) ≡ (if h == g then some new else pouch_of h d)
  after-pouch_of h =
      pouch_of-written g old new d TransactionType.reserve n reference t h found same_guild
        (pouch_of-guild_id g d old found) same_id

  pub with_bid-IsSound : IsSound (with_bid the_bid reserved_db)
  with_bid-IsSound = record {
    pouches = λ h gp e. ground (arith, after-pouch_of h, s.pouches h gp);
    members = λ h gp e. ground (arith, after-pouch_of h, s.members h gp, s.members g old found);
    pouches_distinct =
        written-Distinct g old new d TransactionType.reserve n reference t s.pouches_distinct;
    bids_distinct = append-Distinct bid_key d.bids the_bid s.bids_distinct s.bids_below;
    bids_below =
        append-Below bid_key (d.next.bids + 1) d.bids the_bid
          (Below-mono bid_key d.next.bids (d.next.bids + 1) d.bids (omega arith) s.bids_below)
          (omega arith);
    bids = λ id b e.
        ground (arith, s.bids id b, find_row-append bid_key id d.bids the_bid s.bids_below);
    auctions_below = s.auctions_below;
    auctions_distinct = s.auctions_distinct;
    auctions = s.auctions;
    balanced = λ h. ground (
      arith,
      after-pouch_of h,
      s.balanced h,
      s.balanced g,
      sum_by-append (held_by h) d.bids the_bid,
    );
  }

extended-IsSound :
    (a : Auction) (now : ℕ) (d : Db)
    → IsSound d
    → auction_row a.id d ≡ some a
    → IsAuction a d.auctions
    → IsSound (extended a now d)
extended-IsSound a now d s found v =
    elim (Bool-cases (leb (a.end_time - now) bid_extension_window)) [
      | inl late ↦ rw late (
          put_auction-IsSound (record a { end_time = a.end_time + bid_extension_amount }) a d s
            found (λ h. h) (omega (arith, v.lasting)))
      | inr early ↦ rw early s
    ]

module _ (input : PlaceBidInput) (n now reserve_now t : ℕ) (d : Db) (s : IsSound d) where
  held_db-IsSound :
      (a : Auction) (gp : GoldPouch) (b : Bid) (d' : Db)
      → auction_row a.id d ≡ some a
      → pouch_of input.guild_id d ≡ some gp
      → Placed input n now reserve_now t d a gp b d'
      → IsSound (with_bid b (held_db a gp n reserve_now t d))
  held_db-IsSound a gp b d' fa fp p = rw p.bid (
      with_bid-IsSound input.guild_id gp
        (record (reset_day reserve_now gp) { reserved_balance = gp.reserved_balance + n }) n
        (some (Reference.auction a.id)) t t a.id d s fp
        (ground (arith, pouch_of-guild_id input.guild_id d gp fp)) (ground arith) refl
        (ground (arith, s.pouches input.guild_id gp fp, p.covered)) p.above_zero
        (ground (arith, fa)))

  pub Placed-IsSound :
      (a : Auction) (gp : GoldPouch) (b : Bid) (d' : Db)
      → auction_row a.id d ≡ some a
      → pouch_of input.guild_id d ≡ some gp
      → Placed input n now reserve_now t d a gp b d'
      → IsSound d' × Later d d'
  Placed-IsSound a gp b d' fa fp p =
      subst (λ x. IsSound x × Later d x) (sym p.state)
        (
          extended-IsSound a now _ (held_db-IsSound a gp b d' fa fp p) fa (s.auctions a.id a fa),
          ground arith,
        )

-- PlaceBid keeps a sound database sound, however it ends.
pub place_bid-IsSound :
    (c : Connection) (input : PlaceBidInput) (begin now reserve_now : ℕ) (d : Db)
    → IsSound d
    → IsSound (place_bid c input begin now reserve_now d).1
unfolding place_bid
place_bid-IsSound c input begin now reserve_now d s = elim (Option-cases (positive input.amount)) [
  | inl e ↦ rw (e, place_bid) s
  | inr (n, e) ↦
      rw (e, place_bid)
        (run_tx-keeps_atomic IsSound d s (rollback-IsSound d s) c begin
          (place_bid_body input n now reserve_now)
          (place_bid_body-rule input n now reserve_now begin d s (λ _ d'. IsSound d' × Later d d')
            λ a gp b d' _ _ fa fp p.
              Placed-IsSound input n now reserve_now begin d s a gp b d' fa fp p))
]
