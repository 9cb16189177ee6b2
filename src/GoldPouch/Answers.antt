-- ===== src/GoldPouch/Answers.antt =====
-- Reserve and Settle on a pouch that the schema admits, with the day of the spending written out.
use dragon_market.Base.{
  ℕ, pos, ◌≡◌, refl, ap, ◌∙◌, ◌+◌, ◌-◌, ◌*◌, ◌/◌, inl, inr, Bool, true, false, not, Option, some,
  ltb, ◌==◌, if◌then◌else◌, arith, Bool-cases,
}
use dragon_market.Clock.{same_utc_date, utc_midnight}
use dragon_market.Repository.Rows.{GoldPouch, Guild, TransactionType, Reference}
use dragon_market.Repository.Db.{Db, Error, Result, ok, err}
use dragon_market.Repository.GoldPouches.{pouch_of}
use dragon_market.Repository.TransactionLogs.{guild_row}
use dragon_market.GoldPouch.{reset_day, reserve, settle, may_settle}
use dragon_market.GoldPouch.Outcomes.{
  IsPouch, written, reserve_outcome, settle_outcome, reserve_lem, settle_lem,
}

abbrev pub is_day_of : ℕ → GoldPouch → Bool
is_day_of now gp = gp.last_reset_date / 86_400_000_000_000 == now / 86_400_000_000_000

-- What counts against the limit of the day.
abbrev pub spent_on : ℕ → GoldPouch → ℕ
spent_on now gp = if is_day_of now gp then gp.spent_today else 0

abbrev pub reset_date : ℕ → GoldPouch → ℕ
reset_date now gp =
    if is_day_of now gp then gp.last_reset_date else now / 86_400_000_000_000 * 86_400_000_000_000

same_day :
    (a b : ℕ)
    → same_utc_date a (utc_midnight b) ≡ (a / 86_400_000_000_000 == b / 86_400_000_000_000)
same_day a b =
    ap (λ k. a / 86_400_000_000_000 == k)
      (let p : b / 86_400_000_000_000 * 86_400_000_000_000 / 86_400_000_000_000
            ≡ b / 86_400_000_000_000 =
          omega arith in
        p)

pub reset_day-spent_on :
    (now : ℕ) (gp : GoldPouch)
    → reset_day now gp
      ≡ record gp { spent_today = spent_on now gp; last_reset_date = reset_date now gp }
reset_day-spent_on now gp = elim (Bool-cases (is_day_of now gp)) [
  | inl e ↦ rw (same_day gp.last_reset_date now, e) refl
  | inr e ↦ rw (same_day gp.last_reset_date now, e) refl
]

abbrev pub is_spending : TransactionType → Bool
is_spending TransactionType.purchase = true
is_spending TransactionType.reserve = false
is_spending TransactionType.release = false
is_spending TransactionType.credit = false
is_spending TransactionType.auction_win = true

module _ (gp : GoldPouch) (n : ℕ) (reference : Option Reference) (t : ℕ) (d : Db) (now : ℕ) where
  abbrev pub reserve_answer : Result (Unit {0}) × Db
  reserve_answer =
      if n == 0
      then (err Error.invalid_amount, d)
      else if ltb gp.total_balance (gp.reserved_balance + n)
      then (err Error.insufficient_balance, d)
      else if ltb gp.daily_spending_limit (spent_on now gp + n)
      then (err Error.daily_limit_exceeded, d)
      else (
        ok tt,
        written
            (record gp {
              reserved_balance = gp.reserved_balance + n;
              spent_today = spent_on now gp;
              last_reset_date = reset_date now gp;
            })
            TransactionType.reserve n reference t d,
      )

  abbrev pub settle_answer : TransactionType → Result (Unit {0}) × Db
  settle_answer kind =
      if n == 0
      then (err Error.invalid_amount, d)
      else if not (is_spending kind)
      then (err Error.invalid_transaction_type, d)
      else if ltb gp.reserved_balance n
      then (err Error.insufficient_reserved, d)
      else if ltb gp.daily_spending_limit (spent_on now gp + n)
      then (err Error.daily_limit_exceeded, d)
      else (
        ok tt,
        written
            (record gp {
              total_balance = gp.total_balance - n;
              reserved_balance = gp.reserved_balance - n;
              spent_today = spent_on now gp + n;
              last_reset_date = reset_date now gp;
            })
            kind n reference t d,
      )

  pub reserve_outcome-answer : IsPouch gp → reserve_outcome gp n reference t d now ≡ reserve_answer
  reserve_outcome-answer v = rw (reset_day-spent_on now gp) (ground (arith, v))

  spending : (kind : TransactionType) → may_settle kind ≡ is_spending kind
  spending TransactionType.purchase = refl
  spending TransactionType.reserve = refl
  spending TransactionType.release = refl
  spending TransactionType.credit = refl
  spending TransactionType.auction_win = refl

  settle_outcome-answer :
      (kind : TransactionType) → settle_outcome gp n reference t d kind now ≡ settle_answer kind
  settle_outcome-answer kind = rw (reset_day-spent_on now gp, spending kind) refl

module _ (g : ℕ) (gp : GoldPouch) (n : ℕ) (reference : Option Reference) (t : ℕ) (d : Db) (now : ℕ)
    {row : Guild} (found : pouch_of g d ≡ some gp) (v : IsPouch gp)
    (fg : guild_row g d ≡ some row) where
  -- On a pouch that the schema admits, of a guild that is there, Reserve refuses an amount of zero,
  -- one above the balance that is not held and one that would take what was spent on this UTC day
  -- past the limit, in this order and with nothing written; else it holds the amount and logs it,
  -- and where the last reset was on another day, the day's spending starts at zero and its date is
  -- set.
  pub reserve-answer : reserve g (pos n) reference now t d ≡ reserve_answer gp n reference t d now
  reserve-answer =
      reserve_lem g gp n reference t d now found v fg
      ∙ reserve_outcome-answer gp n reference t d now v

  -- On a pouch that the schema admits, of a guild that is there, Settle refuses an amount of zero, a
  -- type that is neither PURCHASE nor AUCTION_WIN, an amount above the reserved balance and one that
  -- would take what was spent on this UTC day past the limit, in this order and with nothing
  -- written; else it takes the amount from both balances, counts it as spent on this day and logs
  -- it, and where the last reset was on another day, the day's spending starts at zero and its date
  -- is set.
  pub settle-answer :
      (kind : TransactionType)
      → settle g (pos n) kind reference now t d ≡ settle_answer gp n reference t d now kind
  settle-answer kind =
      settle_lem g gp n reference t d kind now found v fg
      ∙ settle_outcome-answer gp n reference t d now kind
