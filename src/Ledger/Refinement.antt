-- ===== src/Ledger/Refinement.antt =====
-- GoldPouchService and the ledger, call by call.
use mathlib.Core.Path.{subst}
use dragon_market.Base.{
  ℕ, ℤ, pos, negsuc, zero, suc, positive, ◌≡◌, refl, sym, ap, ◌∙◌, ◌<◌, Option, none, some, inl,
  inr, arith, Option-cases, true, List, [], ◌∷◌,
}
use dragon_market.Clock.{same_utc_date}
use dragon_market.Repository.Db.{Db, Error, err}
use dragon_market.GoldPouch.{reserve, release, settle, credit}
use dragon_market.Ledger.{
  Account, Op, Call, account_after, book, apply, apply_all, execute, execute_all,
}
use dragon_market.Ledger.Accounts.{ledger_at, HasPouches, ledger_at-same_utc_date}
use dragon_market.Ledger.Matching.{Matches, refused-Matches, call-Matches}

-- An amount that is not above zero is refused before anything is looked at.
no_amount :
    (c : Call) (d : Db) → positive c.amount ≡ none → execute c d ≡ (err Error.invalid_amount, d)
unfolding execute reserve release settle credit
no_amount c d e = elim c.op [
  | Op.hold ↦ ground (arith, e)
  | Op.free ↦ ground (arith, e)
  | Op.deposit ↦ ground (arith, e)
  | Op.pay kind ↦ ground (arith, e)
]

no_amount-rule :
    (c : Call) (o : Option Account)
    → positive c.amount ≡ none
    → account_after c o ≡ err Error.invalid_amount
unfolding account_after
no_amount-rule c o e = ground (arith, e)

positive-some : (v : ℤ) (n : ℕ) → positive v ≡ some n → (v ≡ pos n) × (0 < n)
positive-some (pos zero) n e = cc
positive-some (pos (suc m)) n e = (ground (arith, e), ground (arith, e))
positive-some (negsuc m) n e = cc

execute-Matches :
    (c : Call) (d : Db) (s : HasPouches d)
    → Matches c.now c.guild d s (account_after c (ledger_at c.now d c.guild)) (execute c d)
execute-Matches c d s = elim (Option-cases (positive c.amount)) [
  | inl e ↦
      subst (λ r. Matches c.now c.guild d s r (execute c d)) (sym (no_amount-rule c _ e))
        (refused-Matches c.now c.guild d s _ _ (no_amount c d e))
  | inr (n, e) ↦
      subst
        (λ v.
          let c' = record c { amount = v } in
          Matches c.now c.guild d s (account_after c' (ledger_at c.now d c.guild)) (execute c' d))
        (sym (positive-some c.amount n e).0)
        (call-Matches d s c.guild n c.reference c.begin c.now (positive-some c.amount n e).1 c.op)
]

-- All calls read the clock on the day of the given time.
abbrev pub AllOn : ℕ → List Call → Type 0
AllOn when [] = Unit
AllOn when (c ∷ cs) = (same_utc_date c.now when ≡ true) × AllOn when cs

execute-refines :
    (when : ℕ) (c : Call) (d : Db)
    → HasPouches d
    → same_utc_date c.now when ≡ true
    → (((execute c d).0, ledger_at when (execute c d).1) ≡ apply c (ledger_at when d))
      × HasPouches (execute c d).1
unfolding apply
execute-refines when c d s e =
    let (same, kept) = execute-Matches c d s in
    (
      ap (λ l. ((execute c d).0, l)) (sym (ledger_at-same_utc_date c.now when (execute c d).1 e))
          ∙ same
          ∙ ap (λ l. book c.guild l (account_after c (l c.guild)))
              (ledger_at-same_utc_date c.now when d e),
      kept,
    )

-- Whatever calls of Reserve, Release, Settle and Credit follow on each other on one day, on pouches
-- that the schema admits, of guilds that are there: their answers are those of the ledger, and the
-- pouches they leave stand for the accounts that the ledger comes to.
pub execute_all-refines :
    (when : ℕ) (cs : List Call) (d : Db)
    → HasPouches d
    → AllOn when cs
    → ((execute_all cs d).0, ledger_at when (execute_all cs d).1) ≡ apply_all cs (ledger_at when d)
unfolding execute_all apply_all
execute_all-refines when [] d s all = refl
execute_all-refines when (c ∷ cs) d s (e, all) =
    let (same, kept) = execute-refines when c d s e in
    ap (λ x. ((execute c d).0 ∷ x.0, x.1)) (execute_all-refines when cs (execute c d).1 kept all)
    ∙ ap (λ x. (x.0 ∷ (apply_all cs x.1).0, (apply_all cs x.1).1)) same
