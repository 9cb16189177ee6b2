-- ===== src/Settlement/History.antt =====
-- The rows of bids that the loop over the losing ones goes past.
use mathlib.Core.Path.{subst}
use dragon_market.Base.{
  ℕ, ◌≡◌, refl, ◌∙◌, inl, inr, true, some, List, [], ◌∷◌, arith, Bool-cases, Option-cases, ==→eq,
  some_eq,
}
use dragon_market.Repository.Tables.{find_row}
use dragon_market.Repository.Rows.{Bid, BidStatus, bid_active}
use dragon_market.Repository.Db.{Db}
use dragon_market.Repository.Bids.{bid_row}
use dragon_market.Settlement.Round.{Cleared, InPlace, is_loser}
use dragon_market.Invariant.History.{Ages, BidAdvances}

loser-stored :
    (w id : ℕ) (d : Db) (bs : List Bid) (y : Bid)
    → InPlace w d bs
    → find_row (is_loser w id) bs ≡ some y
    → (bid_row id d ≡ some y) × (bid_active y.status ≡ true)
unfolding find_row
loser-stored w id d [] y v e = absurd (ground (arith, e))
loser-stored w id d (b ∷ bs) y v e = elim (Bool-cases (is_loser w id b)) [
  | inl hit ↦
      let same : b ≡ y = ground (arith, e, hit) in
      subst (λ z. (bid_row id d ≡ some z) × (bid_active z.status ≡ true)) same
        (
          subst (λ k. bid_row k d ≡ some b) (==→eq b.id id (ground (arith, hit)))
              (v.0 (ground (arith, hit))),
          ground (arith, hit),
        )
  | inr miss ↦ loser-stored w id d bs y v.1 (ground (arith, e, miss))
]

pub Cleared-Ages :
    (w : ℕ) (d : Db) (bs : List Bid) (d' : Db) → InPlace w d bs → Cleared w d bs d' → Ages d d'
Cleared-Ages w d bs d' v c = record {
  bids = λ id b e. (elim (Option-cases (find_row (is_loser w id) bs)) [
    | inl free ↦ (b, c.kept id free ∙ e, inl refl)
    | inr (y, lost) ↦
        let (stored, on) = loser-stored w id d bs y v lost in
        (
          record y { status = BidStatus.lost },
          c.ended id y lost,
          subst (λ z. BidAdvances z (record y { status = BidStatus.lost })) (some_eq stored e)
              (inr (on, refl, refl)),
        )
  ]);
  auctions = λ id a e. (a, rw c.auctions e, inl refl);
}
