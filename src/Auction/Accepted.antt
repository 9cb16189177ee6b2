-- ===== src/Auction/Accepted.antt =====
-- What it means that PlaceBid accepted a bid.
use dragon_market.Base.{
  ℕ, zero, suc, ℤ, pos, negsuc, positive, ◌≤◌, ◌<◌, ◌≡◌, ◌≢◌, refl, inl, inr, ◌+◌, ◌-◌, ◌*◌, false,
  none, some, leb, ◌==◌, arith, Bool-cases, Option-cases,
}
use dragon_market.Clock.{minute}
use dragon_market.Repository.Rows.{Auction, GoldPouch, Bid, BidStatus, TransactionType, Reference}
use dragon_market.Repository.Db.{Db, ok, Connection}
use dragon_market.Repository.GoldPouches.{pouch_of}
use dragon_market.Repository.Bids.{auction_row, bid_row, highest_active}
use dragon_market.Repository.Auctions.{active_for_item}
use dragon_market.Repository.Keys.{find_row-append, find_row-update_rows}
use dragon_market.GoldPouch.{reset_day}
use dragon_market.GoldPouch.Outcomes.{pouch_of-guild_id}
use dragon_market.GoldPouch.Effects.{pouch_of-written, reserved_of}
use dragon_market.Auction.{
  PlaceBidInput, ceil_div, min_required, place_bid_body, place_bid, bid_extension_window,
  bid_extension_amount,
}
use dragon_market.Auction.Outcomes.{new_bid, with_bid, extended}
use dragon_market.Auction.Bidding.{Placed, held_db, place_bid_body-rule}
use dragon_market.Atomic.{run_tx-ok, end_ok}
use dragon_market.Invariant.{IsSound, bid_key, auction_key}

-- For a positive b, ceilDiv gives the least number whose product with b reaches a.
pub ceil_div-least :
    (a b : ℕ) → 0 < b → (a ≤ ceil_div a b * b) × ((c : ℕ) → a ≤ c * b → ceil_div a b ≤ c)
unfolding ceil_div
ceil_div-least a b h = (grind arith, λ c k. grind arith)

-- What the caller and the next query see of an accepted bid.
pub record Accepted (input : PlaceBidInput) (now : ℕ) (d : Db) (b : Bid) (d' : Db) (a : Auction)
    : Type 0 where
  pub live : active_for_item input.item_id d ≡ some a
  pub stranger : a.owner_guild_id ≢ input.guild_id
  pub in_time : now ≤ a.end_time
  pub on_auction : b.auction_id ≡ a.id
  pub by_guild : b.guild_id ≡ input.guild_id
  pub of_amount : pos b.amount ≡ input.amount
  pub is_active : b.status ≡ BidStatus.active
  pub first : highest_active a.id d ≡ none → a.base_price ≤ b.amount
  pub outbids : (h : Bid) → highest_active a.id d ≡ some h → h.amount * 105 ≤ b.amount * 100
  pub stored : bid_row b.id d' ≡ some b
  pub reserved : reserved_of input.guild_id d' ≡ reserved_of input.guild_id d + b.amount
  pub time_left :
      (a' : Auction) × (auction_row a.id d' ≡ some a')
      × (a.end_time ≤ a'.end_time)
      × (now + 5 * minute ≤ a'.end_time)

module _ (input : PlaceBidInput) (n now reserve_now t : ℕ) (d : Db) (s : IsSound d) (a : Auction)
    (gp : GoldPouch) (b : Bid) (d' : Db) (fp : pouch_of input.guild_id d ≡ some gp)
    (p : Placed input n now reserve_now t d a gp b d') where
  Placed-outbids : (h : Bid) → highest_active a.id d ≡ some h → h.amount * 105 ≤ n * 100
  unfolding min_required
  Placed-outbids h e = ground (arith, ceil_div-least (h.amount * 105) 100 (omega arith), p.enough)

  Placed-first : highest_active a.id d ≡ none → a.base_price ≤ n
  unfolding min_required
  Placed-first e = ground (arith, p.enough)

  bids-extended : (x : Db) → (extended a now x).bids ≡ x.bids
  bids-extended x = ground arith

  pouches-extended : (x : Db) → (extended a now x).gold_pouches ≡ x.gold_pouches
  pouches-extended x = ground arith

  Placed-stored : bid_row b.id d' ≡ some b
  Placed-stored =
      rw (p.state, bids-extended, p.bid)
        (rw
          (find_row-append bid_key d.next.bids d.bids
            (new_bid a.id input.guild_id n t (held_db a gp n reserve_now t d)) s.bids_below)
          (ground arith))

  Placed-reserved : reserved_of input.guild_id d' ≡ reserved_of input.guild_id d + n
  Placed-reserved = ground (
    arith,
    p.state,
    pouches-extended (with_bid b (held_db a gp n reserve_now t d)),
    pouch_of-written input.guild_id gp
        (record (reset_day reserve_now gp) { reserved_balance = gp.reserved_balance + n }) d
        TransactionType.reserve n (some (Reference.auction a.id)) t input.guild_id fp,
    pouch_of-guild_id input.guild_id d gp fp,
  )

  Placed-time_left :
      auction_row a.id d ≡ some a
      → (a' : Auction) × (auction_row a.id d' ≡ some a')
        × (a.end_time ≤ a'.end_time)
        × (now + 5 * minute ≤ a'.end_time)
  Placed-time_left fa = elim (Bool-cases (leb (a.end_time - now) bid_extension_window)) [
    | inl late ↦ (
      record a { end_time = a.end_time + bid_extension_amount },
      rw (p.state, late)
          (rw
            (find_row-update_rows auction_key a.id a.id
              (λ r. record r { status = a.status; end_time = a.end_time + bid_extension_amount })
              d.auctions (λ r. refl))
            (ground (arith, fa))),
      omega arith,
      omega (arith, p.in_time),
    )
    | inr early ↦ (a, rw (p.state, early) fa, omega arith, ground arith)
  ]

  pub Placed-Accepted :
      active_for_item input.item_id d ≡ some a
      → (a.owner_guild_id == input.guild_id) ≡ false
      → auction_row a.id d ≡ some a
      → input.amount ≡ pos n
      → Accepted input now d b d' a
  Placed-Accepted e other fa amount = record {
    live = e;
    stranger = ground arith;
    in_time = p.in_time;
    on_auction = ground (arith, p.bid);
    by_guild = ground (arith, p.bid);
    of_amount = ground (arith, p.bid);
    is_active = ground (arith, p.bid);
    first = λ none_yet. ground (arith, p.bid, Placed-first none_yet);
    outbids = λ h top. ground (arith, p.bid, Placed-outbids h top);
    stored = Placed-stored;
    reserved = ground (arith, p.bid, Placed-reserved);
    time_left = Placed-time_left fa;
  }

positive-pos : (v : ℤ) (n : ℕ) → positive v ≡ some n → v ≡ pos n
positive-pos (pos zero) n e = cc
positive-pos (pos (suc m)) n e = ground arith
positive-pos (negsuc m) n e = cc

-- From a sound database, an accepted bid is on the item's ACTIVE auction, in time, from a guild that does not own the
-- item, for the amount asked; it reaches the base price, or beats the highest ACTIVE bid by five
-- percent; it is stored, its amount is held, and at least five minutes of the auction are left.
pub place_bid-Accepted :
    (c : Connection) (input : PlaceBidInput) (begin now reserve_now : ℕ) (d : Db) (b : Bid)
    (d' : Db)
    → IsSound d
    → place_bid c input begin now reserve_now d ≡ (ok b, d')
    → (a : Auction) × Accepted input now d b d' a
unfolding place_bid
place_bid-Accepted c input begin now reserve_now d b d' s h =
    elim (Option-cases (positive input.amount)) [
      | inl e ↦ ground (arith, h)
      | inr (n, e) ↦
          end_ok (λ b' x. (a : Auction) × Accepted input now d b' x a) d
            (place_bid_body input n now reserve_now begin d) b d'
            (place_bid_body-rule input n now reserve_now begin d s
              (λ b' x. (a : Auction) × Accepted input now d b' x a)
              λ a gp b' x live other fa fp p. (
                a,
                Placed-Accepted input n now reserve_now begin d s a gp b' x fp p live other fa
                    (positive-pos input.amount n e),
              ))
            (run_tx-ok c begin (place_bid_body input n now reserve_now) d b d'
              (rw (e, place_bid) at h))
    ]
