-- ===== src/Invariant/Pouches.antt =====
-- Reserve and Credit in a sound database, by what a statement on their results needs: the case that
-- they write, with the pouch that they found.
use dragon_market.Base.{ℕ, pos, ◌≡◌, refl, inl, inr, Option, some, Option-cases}
use dragon_market.Repository.Rows.{GoldPouch, Reference}
use dragon_market.Repository.Db.{Db, is_some→eq}
use dragon_market.Repository.GoldPouches.{pouch_of}
use dragon_market.GoldPouch.{reserve, credit}
use dragon_market.GoldPouch.Outcomes.{reserve_lem, credit_lem}
use dragon_market.GoldPouch.Endings.{
  Reserved, Credited, reserve_outcome-Atomic, credit_outcome-Atomic, reserve_missing,
  credit_missing,
}
use dragon_market.Atomic.{Atomic, weaken}
use dragon_market.Invariant.{IsSound}

module _ (g n : ℕ) (reference : Option Reference) (t : ℕ) (d : Db) (s : IsSound d)
    (Q : Db → Type 0) where
  pub reserve-rule :
      (now : ℕ)
      → ((gp : GoldPouch) (d' : Db)
          → pouch_of g d ≡ some gp
          → Reserved gp n reference t d now d'
          → Q d')
      → Atomic (λ _. Q) d (reserve g (pos n) reference now t d)
  reserve-rule now use_it = elim (Option-cases (pouch_of g d)) [
    | inl e ↦ rw (reserve_missing g n reference t d now e) refl
    | inr (gp, fp) ↦
        (let (row, fg) = is_some→eq (s.members g gp fp) in
          rw (reserve_lem g gp n reference t d now fp (s.pouches g gp fp) fg) (
            weaken (λ _. Reserved gp n reference t d now) d (λ _. Q) _
              (reserve_outcome-Atomic gp n reference t d now (s.pouches g gp fp))
              (λ _ d'. use_it gp d' fp)))
  ]

  pub credit-rule :
      ((gp : GoldPouch) (d' : Db) → pouch_of g d ≡ some gp → Credited gp n reference t d d' → Q d')
      → Atomic (λ _. Q) d (credit g (pos n) reference t d)
  credit-rule use_it = elim (Option-cases (pouch_of g d)) [
    | inl e ↦ rw (credit_missing g n reference t d e) refl
    | inr (gp, fp) ↦
        (let (row, fg) = is_some→eq (s.members g gp fp) in
          rw (credit_lem g gp n reference t d fp (s.pouches g gp fp) fg) (
            weaken (λ _. Credited gp n reference t d) d (λ _. Q) _
              (credit_outcome-Atomic gp n reference t d (s.pouches g gp fp))
              (λ _ d'. use_it gp d' fp)))
  ]
