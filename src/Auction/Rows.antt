-- ===== src/Auction/Rows.antt =====
-- The invariant under an UPDATE of an auction's status and end time.
use mathlib.Core.Path.{subst}
use dragon_market.Base.{
  ℕ, ◌<◌, ◌≡◌, refl, sym, inl, inr, true, false, none, some, List, ◌==◌, arith, tests, Bool-cases,
  ==→eq,
}
use dragon_market.Repository.Tables.{
  find_row, find_row-fits, update_rows, find_row-misses, find_row-update_rows-none,
}
use dragon_market.Repository.Rows.{Auction, auction_active}
use dragon_market.Repository.Db.{Db}
use dragon_market.Repository.Bids.{auction_row}
use dragon_market.Repository.Auctions.{is_rival, put_auction}
use dragon_market.Repository.Keys.{
  Distinct, find_row-update_rows, update_rows-Distinct, update_rows-Below, update_rows_const,
}
use dragon_market.Auction.Outcomes.{IsAuction}
use dragon_market.Invariant.{IsSound, auction_key}

module _ (new old : Auction) (rows : List Auction)
    (found : find_row (λ r. r.id == new.id) rows ≡ some old)
    (kept : auction_active new.status ≡ true → auction_active old.status ≡ true)
    (lasting : old.start_time < new.end_time) (distinct : Distinct auction_key rows)
    (valid : (id : ℕ) (a : Auction)
      → find_row (λ r. r.id == id) rows ≡ some a
      → IsAuction a rows) where
  abbrev set_row : Auction → Auction
  set_row r = record r { status = new.status; end_time = new.end_time }

  abbrev set_rows : List Auction
  set_rows = update_rows (λ r. r.id == new.id) set_row rows

  old-id : old.id ≡ new.id
  old-id = omega (tests, find_row-fits _ rows old found)

  same_alone : auction_active new.status ≡ true → find_row (is_rival (set_row old)) set_rows ≡ none
  same_alone active =
      find_row-update_rows-none (is_rival (set_row old)) (λ r. r.id == new.id) set_row rows
        (λ x e. ground (arith, old-id)) ((valid new.id old found).alone (kept active))

  other_alone :
      (id : ℕ) (a : Auction)
      → find_row (λ r. r.id == id) rows ≡ some a
      → auction_active a.status ≡ true
      → (a.id == new.id) ≡ false
      → find_row (is_rival a) set_rows ≡ none
  other_alone id a e active apart =
      rw (update_rows_const auction_key new.id set_row rows old distinct found) (
        find_row-update_rows-none (is_rival a) (λ r. r.id == new.id) (λ _. set_row old) rows
          (λ x hit. ground (
            arith,
            old-id,
            kept,
            find_row-misses (is_rival a) (λ r. r.id == new.id) rows old
                ((valid id a e).alone active) found,
          ))
          ((valid id a e).alone active))

  same_seen : (a : Auction) → find_row (λ r. r.id == new.id) set_rows ≡ some a → a ≡ set_row old
  same_seen a e =
      ground (arith, find_row-update_rows auction_key new.id new.id set_row rows (λ r. refl))

  pub set_rows-IsAuction :
      (id : ℕ) (a : Auction) → find_row (λ r. r.id == id) set_rows ≡ some a → IsAuction a set_rows
  set_rows-IsAuction id a e = elim (Bool-cases (id == new.id)) [
    | inl hit ↦
        subst (λ x. IsAuction x set_rows)
          (sym (
            same_seen a
              (subst (λ k. find_row (λ r. r.id == k) set_rows ≡ some a) (==→eq id new.id hit) e)))
          (record { lasting = lasting; alone = same_alone })
    | inr miss ↦
        (let e' : find_row (λ r. r.id == id) rows ≡ some a =
            ground (arith, find_row-update_rows auction_key new.id id set_row rows (λ r. refl)) in
          record {
            lasting = (valid id a e').lasting;
            alone = λ active.
                other_alone id a e' active
                  (ground (arith, find_row-fits (λ r. r.id == id) rows a e'));
          })
  ]

-- So the database stays sound.
pub put_auction-IsSound :
    (new old : Auction) (d : Db)
    → IsSound d
    → auction_row new.id d ≡ some old
    → (auction_active new.status ≡ true → auction_active old.status ≡ true)
    → old.start_time < new.end_time
    → IsSound (put_auction new d)
put_auction-IsSound new old d s found kept lasting = record {
  pouches = s.pouches;
  members = s.members;
  pouches_distinct = s.pouches_distinct;
  bids_distinct = s.bids_distinct;
  bids_below = s.bids_below;
  bids = λ id b e. ground (
    arith,
    s.bids id b e,
    find_row-update_rows auction_key new.id b.auction_id
        (λ r. record r { status = new.status; end_time = new.end_time }) d.auctions (λ r. refl),
  );
  auctions_below =
      update_rows-Below auction_key (λ r. r.id == new.id)
        (λ r. record r { status = new.status; end_time = new.end_time }) (λ r. refl) d.next.auctions
        d.auctions s.auctions_below;
  auctions_distinct =
      update_rows-Distinct auction_key (λ r. r.id == new.id)
        (λ r. record r { status = new.status; end_time = new.end_time }) (λ r. refl) d.auctions
        s.auctions_distinct;
  auctions =
      set_rows-IsAuction new old d.auctions found kept lasting s.auctions_distinct s.auctions;
  balanced = s.balanced;
}
