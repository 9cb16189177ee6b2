-- ===== src/GoldPouch/Outcomes.antt =====
-- Each method of GoldPouchService on a pouch that the schema admits: its result on every branch.
use dragon_market.Base.{
  ℕ, pos, ◌≤◌, ◌≡◌, ◌+◌, ◌-◌, not, Option, some, [], ◌∷◌, ◌++◌, ltb, ◌==◌, if◌then◌else◌, arith,
  tests,
}
use dragon_market.Repository.Tables.{find_row-fits}
use dragon_market.Repository.Rows.{
  GoldPouch, Guild, TransactionLog, TransactionType, Reference, usable_balance,
}
use dragon_market.Repository.Db.{Db, Error, Result, ok, err, ◌>>◌, int4_max}
use dragon_market.Repository.GoldPouches
use dragon_market.Repository.GoldPouches.{pouch_of, put_pouch}
use dragon_market.Repository.TransactionLogs.{guild_row}
use dragon_market.GoldPouch.{reset_day, write_log, reserve, release, settle, credit, may_settle}

-- A row that the CHECKs and the column types of gold_pouches admit.
pub record IsPouch (gp : GoldPouch) : Type 0 where
  pub covered : gp.reserved_balance ≤ gp.total_balance
  pub total_fits : gp.total_balance ≤ int4_max
  pub limit_fits : gp.daily_spending_limit ≤ int4_max
  pub spent_fits : gp.spent_today ≤ int4_max

pub reset_day-IsPouch : (now : ℕ) (gp : GoldPouch) → IsPouch gp → IsPouch (reset_day now gp)
reset_day-IsPouch now gp v = ground arith

-- The row that a method appends to transaction_logs.
abbrev pub entry : ℕ → TransactionType → ℕ → Option Reference → ℕ → Db → TransactionLog
entry g kind n reference t d = record {
  id = d.next.transaction_logs;
  guild_id = g;
  kind = kind;
  amount = n;
  reference = reference;
  created_at = t;
}

-- The database after a method has written the pouch and its log entry.
abbrev pub written : GoldPouch → TransactionType → ℕ → Option Reference → ℕ → Db → Db
written gp kind n reference t d = record (put_pouch gp d) {
  transaction_logs = d.transaction_logs ++ entry gp.guild_id kind n reference t d ∷ [];
  next = record (d.next) { transaction_logs = d.next.transaction_logs + 1 };
}

pub update-write_log :
    (gp : GoldPouch) (kind : TransactionType) (n : ℕ) (reference : Option Reference) (t : ℕ)
    (d : Db) {row : Guild}
    → IsPouch gp
    → n ≤ int4_max
    → guild_row gp.guild_id d ≡ some row
    → (GoldPouches.update gp >> write_log gp.guild_id kind n reference) t d
      ≡ (ok tt, written gp kind n reference t d)
unfolding GoldPouches.update write_log
update-write_log gp kind n reference t d v small e = ground arith

pub pouch_of-guild_id : (g : ℕ) (d : Db) (gp : GoldPouch) → pouch_of g d ≡ some gp → gp.guild_id ≡ g
pouch_of-guild_id g d gp e = omega (tests, find_row-fits _ d.gold_pouches gp e)

-- The row that Settle writes.
abbrev pub settled : GoldPouch → ℕ → ℕ → GoldPouch
settled gp n now =
    let gp' = reset_day now gp in
    record gp' {
      total_balance = gp'.total_balance - n;
      reserved_balance = gp'.reserved_balance - n;
      spent_today = gp'.spent_today + n;
    }

module _ (gp : GoldPouch) (n : ℕ) (reference : Option Reference) (t : ℕ) (d : Db) where
  abbrev pub reserve_outcome : ℕ → Result (Unit {0}) × Db
  reserve_outcome now =
      if n == 0
      then (err Error.invalid_amount, d)
      else if ltb (usable_balance gp) n
      then (err Error.insufficient_balance, d)
      else (let gp' = reset_day now gp in
          if ltb gp'.daily_spending_limit (gp'.spent_today + n)
          then (err Error.daily_limit_exceeded, d)
          else (
            ok tt,
            written (record gp' { reserved_balance = gp'.reserved_balance + n })
                TransactionType.reserve n reference t d,
          ))

  abbrev pub release_outcome : Result (Unit {0}) × Db
  release_outcome =
      if n == 0
      then (err Error.invalid_amount, d)
      else if ltb gp.reserved_balance n
      then (err Error.insufficient_reserved, d)
      else (
        ok tt,
        written (record gp { reserved_balance = gp.reserved_balance - n }) TransactionType.release n
            reference t d,
      )

  abbrev pub settle_outcome : TransactionType → ℕ → Result (Unit {0}) × Db
  settle_outcome kind now =
      if n == 0
      then (err Error.invalid_amount, d)
      else if not (may_settle kind)
      then (err Error.invalid_transaction_type, d)
      else if ltb gp.reserved_balance n
      then (err Error.insufficient_reserved, d)
      else (let gp' = reset_day now gp in
          if ltb gp'.daily_spending_limit (gp'.spent_today + n)
          then (err Error.daily_limit_exceeded, d)
          else (ok tt, written (settled gp n now) kind n reference t d))

  abbrev pub credit_outcome : Result (Unit {0}) × Db
  credit_outcome =
      if n == 0
      then (err Error.invalid_amount, d)
      else if ltb int4_max (gp.total_balance + n)
      then (err Error.driver, d)
      else (
        ok tt,
        written (record gp { total_balance = gp.total_balance + n }) TransactionType.credit n
            reference t d,
      )

module _ (g : ℕ) (gp : GoldPouch) (n : ℕ) (reference : Option Reference) (t : ℕ) (d : Db) where
  -- On a pouch that the schema admits, of a guild that is there, Reserve refuses an amount of
  -- zero, one above the usable balance and one that would pass the day's limit, in this order and
  -- with nothing written; else it holds the amount and logs it.
  pub reserve_lem :
      (now : ℕ) {row : Guild}
      → pouch_of g d ≡ some gp
      → IsPouch gp
      → guild_row g d ≡ some row
      → reserve g (pos n) reference now t d ≡ reserve_outcome gp n reference t d now
  unfolding reserve GoldPouches.get_by_guild_id GoldPouches.update write_log
  reserve_lem now found v e = ground (arith, pouch_of-guild_id g d gp found)

  -- On a pouch that the schema admits, of a guild that is there, Release refuses an amount of zero
  -- and one above the reserved balance, with nothing written; else it frees the amount and logs
  -- it.
  pub release_lem :
      {row : Guild}
      → pouch_of g d ≡ some gp
      → IsPouch gp
      → guild_row g d ≡ some row
      → release g (pos n) reference t d ≡ release_outcome gp n reference t d
  unfolding release GoldPouches.get_by_guild_id GoldPouches.update write_log
  release_lem found v e = ground (arith, pouch_of-guild_id g d gp found)

  -- On a pouch that the schema admits, of a guild that is there, Settle refuses an amount of zero,
  -- a type that is neither PURCHASE nor AUCTION_WIN, an amount above the reserved balance and one
  -- that would pass the day's limit, in this order and with nothing written; else it takes the
  -- amount from both balances, counts it as spent and logs it.
  pub settle_lem :
      (kind : TransactionType) (now : ℕ) {row : Guild}
      → pouch_of g d ≡ some gp
      → IsPouch gp
      → guild_row g d ≡ some row
      → settle g (pos n) kind reference now t d ≡ settle_outcome gp n reference t d kind now
  unfolding settle GoldPouches.get_by_guild_id GoldPouches.update write_log
  settle_lem kind now found v e = ground (arith, pouch_of-guild_id g d gp found)

  -- On a pouch that the schema admits, of a guild that is there, Credit refuses an amount of zero
  -- and one that would take the total past an INTEGER column, with nothing written; else it adds
  -- the amount to the total and logs it.
  pub credit_lem :
      {row : Guild}
      → pouch_of g d ≡ some gp
      → IsPouch gp
      → guild_row g d ≡ some row
      → credit g (pos n) reference t d ≡ credit_outcome gp n reference t d
  unfolding credit GoldPouches.get_by_guild_id GoldPouches.update write_log
  credit_lem found v e = ground (arith, pouch_of-guild_id g d gp found)
