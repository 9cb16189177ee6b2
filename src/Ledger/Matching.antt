-- ===== src/Ledger/Matching.antt =====
-- One call of GoldPouchService beside the rule of the ledger.
use mathlib.Core.Path.{subst}
use mathlib.Core.Option
use dragon_market.Base.{
  ℕ, pos, ◌≡◌, refl, sym, ap, ◌∙◌, ◌<◌, Option, none, some, inl, inr, arith, Bool-cases,
  Option-cases, true, false,
}
use dragon_market.Repository.Rows.{GoldPouch, Reference}
use dragon_market.Repository.Db.{Db, Error, Result, ok, err, is_some→eq}
use dragon_market.Repository.GoldPouches.{pouch_of}
use dragon_market.GoldPouch.{settle}
use dragon_market.GoldPouch.Outcomes.{
  written, reserve_lem, release_lem, settle_lem, credit_lem, pouch_of-guild_id,
}
use dragon_market.GoldPouch.Endings.{
  reserve_missing, release_missing, settle_missing, credit_missing,
}
use dragon_market.Ledger.{
  Account, Op, Call, settle_account, account_after, may_do, put, book, execute,
}
use dragon_market.Ledger.Accounts.{
  account_at, ledger_at, HasPouches, written-HasPouches, ledger_at-written,
}
use dragon_market.Ledger.Methods.{
  Follows, release-Follows, credit-Follows, reserve-Follows, settle-Follows,
}

module _ (now : ℕ) (g : ℕ) (d : Db) (s : HasPouches d) where
  -- The answer and the ledger after a call are what the account's rule says.
  abbrev pub Matches : Result Account → Result (Unit {0}) × Db → Type 0
  Matches r x = ((x.0, ledger_at now x.1) ≡ book g (ledger_at now d) r) × HasPouches x.1

  pub refused-Matches :
      (e : Error) (x : Result (Unit {0}) × Db) → x ≡ (err e, d) → Matches (err e) x
  refused-Matches e x h = subst (Matches (err e)) (sym h) (refl, s)

  Follows-Matches :
      (gp : GoldPouch) (t : ℕ) (r : Result Account) (x : Result (Unit {0}) × Db)
      → pouch_of g d ≡ some gp
      → Follows now gp t d r x
      → Matches r x
  Follows-Matches gp t (err e) x fp h = refused-Matches e x h
  Follows-Matches gp t (ok a) x fp (e, w) =
      (λ i. (e i, shown i), subst HasPouches (sym w.state) kept)
    where
      own : w.row.guild_id ≡ g
      own = w.same_guild ∙ pouch_of-guild_id g d gp fp

      shown : ledger_at now x.1 ≡ put g a (ledger_at now d)
      shown =
          ap (ledger_at now) w.state
          ∙ ledger_at-written g gp w.row d w.kind w.amount w.reference t fp own w.same_id now
          ∙ ap (λ b. put g b (ledger_at now d)) w.shown

      kept : HasPouches (written w.row w.kind w.amount w.reference t d)
      kept =
          written-HasPouches g gp w.row d w.kind w.amount w.reference t fp own w.same_id w.valid s

module _ (d : Db) (s : HasPouches d) (g n : ℕ) (reference : Option Reference) (begin now : ℕ)
    (z : 0 < n) where
  abbrev call : Op → Call
  call op = record {
    op = op;
    guild = g;
    amount = pos n;
    reference = reference;
    begin = begin;
    now = now;
  }

  found-Follows :
      (op : Op) (gp : GoldPouch)
      → pouch_of g d ≡ some gp
      → may_do op ≡ true
      → Follows now gp begin d (settle_account op n (account_at now gp)) (execute (call op) d)
  unfolding execute
  found-Follows Op.hold gp fp may =
      let (row, fg) = is_some→eq (s.members g gp fp) in
      subst (Follows now gp begin d (settle_account Op.hold n (account_at now gp)))
        (sym (reserve_lem g gp n reference begin d now fp (s.pouches g gp fp) fg))
        (reserve-Follows now gp n reference begin d (s.pouches g gp fp) z)
  found-Follows Op.free gp fp may =
      let (row, fg) = is_some→eq (s.members g gp fp) in
      subst (Follows now gp begin d (settle_account Op.free n (account_at now gp)))
        (sym (release_lem g gp n reference begin d fp (s.pouches g gp fp) fg))
        (release-Follows now gp n reference begin d (s.pouches g gp fp) z)
  found-Follows Op.deposit gp fp may =
      let (row, fg) = is_some→eq (s.members g gp fp) in
      subst (Follows now gp begin d (settle_account Op.deposit n (account_at now gp)))
        (sym (credit_lem g gp n reference begin d fp (s.pouches g gp fp) fg))
        (credit-Follows now gp n reference begin d (s.pouches g gp fp) z)
  found-Follows (Op.pay kind) gp fp may =
      let (row, fg) = is_some→eq (s.members g gp fp) in
      subst (Follows now gp begin d (settle_account (Op.pay kind) n (account_at now gp)))
        (sym (settle_lem g gp n reference begin d kind now fp (s.pouches g gp fp) fg))
        (settle-Follows now gp n reference begin d (s.pouches g gp fp) z kind may)

  missing-execute :
      (op : Op)
      → pouch_of g d ≡ none
      → may_do op ≡ true
      → execute (call op) d ≡ (err Error.not_found, d)
  unfolding execute
  missing-execute Op.hold e may = ground (arith, z, reserve_missing g n reference begin d now e)
  missing-execute Op.free e may = ground (arith, z, release_missing g n reference begin d e)
  missing-execute Op.deposit e may = ground (arith, z, credit_missing g n reference begin d e)
  missing-execute (Op.pay kind) e may =
      ground (arith, z, settle_missing g n reference begin d kind now e may)

  barred-execute :
      (op : Op) → may_do op ≡ false → execute (call op) d ≡ (err Error.invalid_transaction_type, d)
  unfolding execute settle
  barred-execute Op.hold may = cc
  barred-execute Op.free may = cc
  barred-execute Op.deposit may = cc
  barred-execute (Op.pay kind) may = ground (arith, z)

  barred-rule :
      (op : Op) (o : Option Account)
      → may_do op ≡ false
      → account_after (call op) o ≡ err Error.invalid_transaction_type
  unfolding account_after
  barred-rule op o barred = ground (arith, z, barred)

  open-rule :
      (op : Op) (o : Option Account)
      → may_do op ≡ true
      → account_after (call op) o
        ≡ elim o [ none ↦ err Error.not_found | some a ↦ settle_account op n a ]
  unfolding account_after
  open-rule op none may = ground (arith, z, may)
  open-rule op (some a) may = ground (arith, z, may)

  by_rule :
      (op : Op) (r : Result Account)
      → account_after (call op) (ledger_at now d g) ≡ r
      → Matches now g d s r (execute (call op) d)
      → Matches now g d s (account_after (call op) (ledger_at now d g)) (execute (call op) d)
  by_rule op r e h = subst (λ q. Matches now g d s q (execute (call op) d)) (sym e) h

  pub call-Matches :
      (op : Op)
      → Matches now g d s (account_after (call op) (ledger_at now d g)) (execute (call op) d)
  call-Matches op = elim (Bool-cases (may_do op)) [
    | inr barred ↦
        by_rule op (err Error.invalid_transaction_type) (barred-rule op _ barred)
          (refused-Matches now g d s _ _ (barred-execute op barred))
    | inl may ↦ elim (Option-cases (pouch_of g d)) [
      | inl missing ↦
          by_rule op (err Error.not_found)
            (open-rule op _ may
              ∙ ap
                  (λ o. elim (Option.map (account_at now) o) [
                    | none ↦ err Error.not_found
                    | some a ↦ settle_account op n a
                  ])
                  missing)
            (refused-Matches now g d s _ _ (missing-execute op missing may))
      | inr (gp, fp) ↦
          by_rule op (settle_account op n (account_at now gp))
            (open-rule op _ may
              ∙ ap
                  (λ o. elim (Option.map (account_at now) o) [
                    | none ↦ err Error.not_found
                    | some a ↦ settle_account op n a
                  ])
                  fp)
            (Follows-Matches now g d s gp begin _ _ fp (found-Follows op gp fp may))
    ]
  ]
