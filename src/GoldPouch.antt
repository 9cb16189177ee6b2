-- ===== src/GoldPouch.antt =====
-- GoldPouchService, internal/service/goldpouch_service.go. `now` is the reading of time.Now() that
-- a method takes; the transaction and the database are those of `Tx`.
pub mod Outcomes
pub mod Answers
pub mod Effects
pub mod Endings
use dragon_market.Base.{
  ℕ, ℤ, positive, ◌+◌, ◌-◌, Bool, true, false, not, Option, ltb, if◌then◌else◌,
}
use dragon_market.Clock.{utc_midnight, same_utc_date}
use dragon_market.Repository.Rows.{GoldPouch, TransactionType, Reference, usable_balance}
use dragon_market.Repository.Db.{Tx, Error, ◌>>=◌, ◌>>◌, pure, raise_if, or_raise, minus}
use dragon_market.Repository.GoldPouches
use dragon_market.Repository.TransactionLogs

-- The reset of the day's spending, which Reserve and Settle make before they test the limit.
abbrev pub reset_day : ℕ → GoldPouch → GoldPouch
reset_day now gp =
    if same_utc_date gp.last_reset_date (utc_midnight now)
    then gp
    else record gp { spent_today = 0; last_reset_date = utc_midnight now }

unfoldable pub write_log : ℕ → TransactionType → ℕ → Option Reference → Tx (Unit {0})
unfolding TransactionLogs.create
write_log guild_id kind amount reference = do
  TransactionLogs.create guild_id kind amount reference
  pure tt

unfoldable pub reserve : ℕ → ℤ → Option Reference → ℕ → Tx (Unit {0})
reserve guild_id amount reference now = do
  n ← or_raise (positive amount) Error.invalid_amount
  gp ← GoldPouches.get_by_guild_id guild_id
  raise_if (ltb (usable_balance gp) n) Error.insufficient_balance
  let gp' = reset_day now gp
  raise_if (ltb gp'.daily_spending_limit (gp'.spent_today + n)) Error.daily_limit_exceeded
  GoldPouches.update (record gp' { reserved_balance = gp'.reserved_balance + n })
  write_log guild_id TransactionType.reserve n reference

unfoldable pub release : ℕ → ℤ → Option Reference → Tx (Unit {0})
release guild_id amount reference = do
  n ← or_raise (positive amount) Error.invalid_amount
  gp ← GoldPouches.get_by_guild_id guild_id
  raise_if (ltb gp.reserved_balance n) Error.insufficient_reserved
  GoldPouches.update (record gp { reserved_balance = gp.reserved_balance - n })
  write_log guild_id TransactionType.release n reference

abbrev pub may_settle : TransactionType → Bool
may_settle TransactionType.purchase = true
may_settle TransactionType.auction_win = true
may_settle _ = false

unfoldable pub settle : ℕ → ℤ → TransactionType → Option Reference → ℕ → Tx (Unit {0})
settle guild_id amount kind reference now = do
  n ← or_raise (positive amount) Error.invalid_amount
  raise_if (not (may_settle kind)) Error.invalid_transaction_type
  gp ← GoldPouches.get_by_guild_id guild_id
  raise_if (ltb gp.reserved_balance n) Error.insufficient_reserved
  let gp' = reset_day now gp
  raise_if (ltb gp'.daily_spending_limit (gp'.spent_today + n)) Error.daily_limit_exceeded
  total ← minus gp'.total_balance n
  GoldPouches.update (record gp' {
    total_balance = total;
    reserved_balance = gp'.reserved_balance - n;
    spent_today = gp'.spent_today + n;
  })
  write_log guild_id kind n reference

unfoldable pub credit : ℕ → ℤ → Option Reference → Tx (Unit {0})
credit guild_id amount reference = do
  n ← or_raise (positive amount) Error.invalid_amount
  gp ← GoldPouches.get_by_guild_id guild_id
  GoldPouches.update (record gp { total_balance = gp.total_balance + n })
  write_log guild_id TransactionType.credit n reference
