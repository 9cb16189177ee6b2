-- ===== src/Ledger/Methods.antt =====
-- Each method of GoldPouchService on a pouch, and what the ledger says of the account.
use dragon_market.Base.{
  ℕ, ◌≡◌, refl, ◌+◌, ◌-◌, ◌<◌, Option, inl, inr, if◌then◌else◌, arith, Bool-cases, true, ltb,
}
use dragon_market.Clock.{same_utc_date}
use dragon_market.Repository.Rows.{GoldPouch, TransactionType, Reference, usable_balance}
use dragon_market.Repository.Db.{Db, Result, ok, err, int4_max}
use dragon_market.GoldPouch.{reset_day, may_settle}
use dragon_market.GoldPouch.Outcomes.{
  IsPouch, written, settled, reserve_outcome, release_outcome, settle_outcome, credit_outcome,
}
use dragon_market.Ledger.{Account, Op, settle_account}
use dragon_market.Ledger.Accounts.{account_at}

-- The database after a write that leaves the account a with the guild.
pub record Wrote (now : ℕ) (gp : GoldPouch) (a : Account) (t : ℕ) (d d' : Db) : Type 0 where
  pub row : GoldPouch
  pub kind : TransactionType
  pub amount : ℕ
  pub reference : Option Reference
  pub valid : IsPouch row
  pub same_guild : row.guild_id ≡ gp.guild_id
  pub same_id : row.id ≡ gp.id
  pub shown : account_at now row ≡ a
  pub state : d' ≡ written row kind amount reference t d

-- An answer and a state that are what the account's rule says.
abbrev pub Follows : ℕ → GoldPouch → ℕ → Db → Result Account → Result (Unit {0}) × Db → Type 0
Follows now gp t d (err e) x = x ≡ (err e, d)
Follows now gp t d (ok a) x = (x.0 ≡ ok tt) × Wrote now gp a t d x.1

module _ (now : ℕ) (gp : GoldPouch) (n : ℕ) (reference : Option Reference) (t : ℕ) (d : Db)
    (v : IsPouch gp) (z : 0 < n) where
  wrote :
      (row : GoldPouch) (kind : TransactionType)
      → IsPouch row
      → row.guild_id ≡ gp.guild_id
      → row.id ≡ gp.id
      → Wrote now gp (account_at now row) t d (written row kind n reference t d)
  wrote row kind valid same_guild same_id = record {
    row = row;
    kind = kind;
    amount = n;
    reference = reference;
    valid = valid;
    same_guild = same_guild;
    same_id = same_id;
    shown = refl;
    state = refl;
  }

  abbrev held_row : GoldPouch
  held_row = record (reset_day now gp) { reserved_balance = gp.reserved_balance + n }

  -- What Reserve and Settle count as spent is what the account shows.
  spent-shown : (reset_day now gp).spent_today ≡ (account_at now gp).spent
  spent-shown = ground arith

  reset-shown :
      (total held spent : ℕ)
      → account_at now (record (reset_day now gp) {
        total_balance = total;
        reserved_balance = held;
        spent_today = spent;
      })
        ≡ record {
          total = total;
          held = held;
          limit = gp.daily_spending_limit;
          spent = if same_utc_date (reset_day now gp).last_reset_date now then spent else 0;
        }
  reset-shown total held spent = ground arith

  today : same_utc_date (reset_day now gp).last_reset_date now ≡ true
  today = ground arith

  pub release-Follows :
      Follows now gp t d
        (settle_account Op.free n (account_at now gp))
        (release_outcome gp n reference t d)
  unfolding settle_account
  release-Follows = ground (
    arith,
    z,
    wrote (record gp { reserved_balance = gp.reserved_balance - n }) TransactionType.release
        (ground arith) refl refl,
  )

  pub credit-Follows :
      Follows now gp t d
        (settle_account Op.deposit n (account_at now gp))
        (credit_outcome gp n reference t d)
  unfolding settle_account
  credit-Follows = elim (Bool-cases (ltb int4_max (gp.total_balance + n))) [
    | inl large ↦ ground (arith, z, large)
    | inr fits ↦ ground (
      arith,
      z,
      wrote (record gp { total_balance = gp.total_balance + n }) TransactionType.credit
          (ground arith) refl refl,
    )
  ]

  pub reserve-Follows :
      Follows now gp t d
        (settle_account Op.hold n (account_at now gp))
        (reserve_outcome gp n reference t d now)
  unfolding settle_account
  reserve-Follows = elim (Bool-cases (ltb (usable_balance gp) n)) [
    | inl poor ↦ ground (arith, z, poor)
    | inr rich ↦
        elim (Bool-cases (ltb gp.daily_spending_limit ((reset_day now gp).spent_today + n))) [
          | inl over ↦ ground (arith, z, rich, over, spent-shown)
          | inr within ↦ ground (
            arith,
            z,
            rich,
            within,
            spent-shown,
            today,
            wrote held_row TransactionType.reserve (ground arith) (ground arith) (ground arith),
          )
        ]
  ]

  pub settle-Follows :
      (kind : TransactionType)
      → may_settle kind ≡ true
      → Follows now gp t d
          (settle_account (Op.pay kind) n (account_at now gp))
          (settle_outcome gp n reference t d kind now)
  unfolding settle_account
  settle-Follows kind may = elim (Bool-cases (ltb gp.reserved_balance n)) [
    | inl poor ↦ ground (arith, z, poor, may)
    | inr rich ↦
        elim (Bool-cases (ltb gp.daily_spending_limit ((reset_day now gp).spent_today + n))) [
          | inl over ↦ ground (arith, z, rich, over, spent-shown, may)
          | inr within ↦ ground (
            arith,
            z,
            rich,
            within,
            may,
            spent-shown,
            today,
            wrote (settled gp n now) kind (ground arith) (ground arith) (ground arith),
          )
        ]
  ]
