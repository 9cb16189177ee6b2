-- ===== src/GoldPouch/Endings.antt =====
-- How each method of GoldPouchService ends in a database that the schema admits: it has written
-- the pouch and the log entry, under the conditions that it tests, or nothing.
use dragon_market.Base.{
  ℕ, pos, ◌≤◌, ◌<◌, ◌≡◌, ◌+◌, ◌-◌, true, Option, none, ◌==◌, if◌then◌else◌, arith,
}
use dragon_market.Repository.Rows.{GoldPouch, TransactionType, Reference, usable_balance}
use dragon_market.Repository.Db.{Db, Error, err, int4_max}
use dragon_market.Repository.GoldPouches.{pouch_of}
use dragon_market.Repository.GoldPouches
use dragon_market.GoldPouch.{reset_day, reserve, release, settle, credit, may_settle}
use dragon_market.GoldPouch.Outcomes.{
  IsPouch, written, settled, reserve_outcome, release_outcome, settle_outcome, credit_outcome,
}
use dragon_market.Atomic.{Atomic}

module _ (g n : ℕ) (reference : Option Reference) (t : ℕ) (d : Db) where
  abbrev refusal : Error
  refusal = if n == 0 then Error.invalid_amount else Error.not_found

  -- Without a pouch nothing is written.
  pub reserve_missing :
      (now : ℕ) → pouch_of g d ≡ none → reserve g (pos n) reference now t d ≡ (err refusal, d)
  unfolding reserve GoldPouches.get_by_guild_id
  reserve_missing now e = ground arith

  pub release_missing : pouch_of g d ≡ none → release g (pos n) reference t d ≡ (err refusal, d)
  unfolding release GoldPouches.get_by_guild_id
  release_missing e = ground arith

  pub settle_missing :
      (kind : TransactionType) (now : ℕ)
      → pouch_of g d ≡ none
      → may_settle kind ≡ true
      → settle g (pos n) kind reference now t d ≡ (err refusal, d)
  unfolding settle GoldPouches.get_by_guild_id
  settle_missing kind now e m = ground arith

  pub credit_missing : pouch_of g d ≡ none → credit g (pos n) reference t d ≡ (err refusal, d)
  unfolding credit GoldPouches.get_by_guild_id
  credit_missing e = ground arith

module _ (gp : GoldPouch) (n : ℕ) (reference : Option Reference) (t : ℕ) (d : Db) where
  abbrev pub Reserved : ℕ → Db → Type 0
  Reserved now d' =
      (0 < n)
      × (n ≤ usable_balance gp)
      × ((reset_day now gp).spent_today + n ≤ gp.daily_spending_limit)
      × (d'
          ≡ written (record (reset_day now gp) { reserved_balance = gp.reserved_balance + n })
              TransactionType.reserve n reference t d)

  pub reserve_outcome-Atomic :
      (now : ℕ) → IsPouch gp → Atomic (λ _. Reserved now) d (reserve_outcome gp n reference t d now)
  reserve_outcome-Atomic now v = ground arith

  abbrev pub Released : Db → Type 0
  Released d' =
      (0 < n)
      × (n ≤ gp.reserved_balance)
      × (d'
          ≡ written (record gp { reserved_balance = gp.reserved_balance - n })
              TransactionType.release n reference t d)

  pub release_outcome-Atomic :
      IsPouch gp → Atomic (λ _. Released) d (release_outcome gp n reference t d)
  release_outcome-Atomic v = ground arith

  abbrev pub Settled : TransactionType → ℕ → Db → Type 0
  Settled kind now d' =
      (0 < n)
      × (n ≤ gp.reserved_balance)
      × ((reset_day now gp).spent_today + n ≤ gp.daily_spending_limit)
      × (d' ≡ written (settled gp n now) kind n reference t d)

  pub settle_outcome-Atomic :
      (kind : TransactionType) (now : ℕ)
      → IsPouch gp
      → Atomic (λ _. Settled kind now) d (settle_outcome gp n reference t d kind now)
  settle_outcome-Atomic kind now v = ground arith

  abbrev pub Credited : Db → Type 0
  Credited d' =
      (0 < n)
      × (gp.total_balance + n ≤ int4_max)
      × (d'
          ≡ written (record gp { total_balance = gp.total_balance + n }) TransactionType.credit n
              reference t d)

  pub credit_outcome-Atomic :
      IsPouch gp → Atomic (λ _. Credited) d (credit_outcome gp n reference t d)
  credit_outcome-Atomic v = ground arith
