-- ===== src/Auction/Opening/Sound.antt =====
-- The invariant after CreateAuction has added an auction.
use mathlib.Core.Path.{subst}
use dragon_market.Base.{
  ℕ, ◌<◌, ◌≡◌, inl, inr, ◌+◌, true, none, some, [], ◌∷◌, ◌++◌, ◌==◌, if◌then◌else◌, arith,
  Bool-cases,
}
use dragon_market.Repository.Tables.{
  find_row, find_row-misses, find_row-narrower, find_row-append-none,
}
use dragon_market.Repository.Rows.{Auction, auction_active}
use dragon_market.Repository.Db.{Db}
use dragon_market.Repository.Auctions.{active_for_item, is_active_for, is_rival}
use dragon_market.Repository.Bids.{auction_row}
use dragon_market.Repository.Keys.{
  Below, find_row-append, append-Distinct, append-Below, Below-mono,
}
use dragon_market.Auction.Outcomes.{IsAuction}
use dragon_market.Invariant.{IsSound, auction_key}

abbrev pub opened_db : Auction → Db → Db
opened_db a d = record d {
  auctions = d.auctions ++ a ∷ [];
  next = record (d.next) { auctions = d.next.auctions + 1 };
}

module _ (a : Auction) (d : Db) (s : IsSound d) (fresh : a.id ≡ d.next.auctions)
    (lasting : a.start_time < a.end_time) (active : auction_active a.status ≡ true)
    (clash : active_for_item a.item_id d ≡ none) where
  new_alone : find_row (is_rival a) (d.auctions ++ a ∷ []) ≡ none
  new_alone =
      find_row-append-none (is_rival a) d.auctions a
        (find_row-narrower (is_rival a) (is_active_for a.item_id) d.auctions (λ x h. ground arith)
          clash)
        (ground arith)

  old_alone :
      (id : ℕ) (x : Auction)
      → auction_row id d ≡ some x
      → auction_active x.status ≡ true
      → find_row (is_rival x) (d.auctions ++ a ∷ []) ≡ none
  old_alone id x e live =
      find_row-append-none (is_rival x) d.auctions a ((s.auctions id x e).alone live) (
        ground
          (arith, find_row-misses (is_active_for a.item_id) (λ r. r.id == id) d.auctions x clash e))

  below : Below auction_key a.id d.auctions
  below = rw fresh s.auctions_below

  seen :
      (id : ℕ) → auction_row id (opened_db a d) ≡ (if a.id == id then some a else auction_row id d)
  seen id = find_row-append auction_key id d.auctions a below

  opened-IsAuction :
      (id : ℕ) (x : Auction)
      → auction_row id (opened_db a d) ≡ some x
      → IsAuction x (d.auctions ++ a ∷ [])
  opened-IsAuction id x e = elim (Bool-cases (a.id == id)) [
    | inl hit ↦
        subst (λ y. IsAuction y (d.auctions ++ a ∷ []))
          (let p : a ≡ x = ground (arith, seen id) in p)
          (record { lasting = lasting; alone = λ _. new_alone })
    | inr miss ↦
        (let old : auction_row id d ≡ some x = ground (arith, seen id) in
          record {
            lasting = (s.auctions id x old).lasting;
            alone = λ live. old_alone id x old live;
          })
  ]

  pub opened_db-IsSound : IsSound (opened_db a d)
  opened_db-IsSound = record {
    pouches = s.pouches;
    members = s.members;
    pouches_distinct = s.pouches_distinct;
    bids_distinct = s.bids_distinct;
    bids_below = s.bids_below;
    bids = λ id b e. ground (arith, s.bids id b e, seen b.auction_id);
    auctions_below =
        append-Below auction_key (d.next.auctions + 1) d.auctions a
          (Below-mono auction_key d.next.auctions (d.next.auctions + 1) d.auctions (omega arith)
            s.auctions_below)
          (omega (arith, fresh));
    auctions_distinct = append-Distinct auction_key d.auctions a s.auctions_distinct below;
    auctions = opened-IsAuction;
    balanced = s.balanced;
  }
