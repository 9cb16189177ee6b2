-- ===== src/Repository/GoldPouches.antt =====
-- internal/repository/goldpouch.go over the table of migrations/000006.
use dragon_market.Base.{ℕ, ◌+◌, [], ◌∷◌, ◌++◌, Bool, not, ◌&&◌, Option, leb, ◌==◌}
use dragon_market.Repository.Tables.{find_row, update_rows}
use dragon_market.Repository.Rows.{GoldPouch}
use dragon_market.Repository.TransactionLogs.{guild_row}
use dragon_market.Repository.Db.{
  Db, Tx, Error, ok, ◌>>=◌, ◌>>◌, raise_if, or_raise, gets, is_some, fits, require_row,
}

abbrev pub of_guild : ℕ → GoldPouch → Bool
of_guild g gp = gp.guild_id == g

abbrev pub pouch_of : ℕ → Db → Option GoldPouch
pouch_of g d = find_row (of_guild g) d.gold_pouches

unfoldable pub get_by_guild_id : ℕ → Tx GoldPouch
get_by_guild_id g = do or_raise (← gets (pouch_of g)) Error.not_found

-- The columns that an UPDATE sets.
abbrev pub set_columns : GoldPouch → GoldPouch → GoldPouch
set_columns gp row = record row {
  total_balance = gp.total_balance;
  reserved_balance = gp.reserved_balance;
  daily_spending_limit = gp.daily_spending_limit;
  spent_today = gp.spent_today;
  last_reset_date = gp.last_reset_date;
}

abbrev pub columns_fit : GoldPouch → Bool
columns_fit gp =
    fits gp.total_balance
    && fits gp.reserved_balance
    && fits gp.daily_spending_limit
    && fits gp.spent_today

abbrev next_id : Tx ℕ
next_id t d =
    let id = d.next.gold_pouches in
    (ok id, record d { next = record (d.next) { gold_pouches = id + 1 } })

-- Create, of the pouch with the id that the sequence gives it.
unfoldable pub create : GoldPouch → Tx GoldPouch
create gp = do
  raise_if (not (columns_fit gp)) Error.driver
  id ← next_id
  raise_if (not (leb gp.reserved_balance gp.total_balance)) Error.check_violation
  row ← gets (pouch_of gp.guild_id)
  raise_if (is_some row) Error.unique_violation
  require_row (← gets (guild_row gp.guild_id))
  let stored : GoldPouch = record gp { id = id }
  λ t d. (ok stored, record d { gold_pouches = d.gold_pouches ++ stored ∷ [] })

abbrev pub put_pouch : GoldPouch → Db → Db
put_pouch gp d = record d {
  gold_pouches = update_rows (of_guild gp.guild_id) (set_columns gp) d.gold_pouches;
}

unfoldable pub update : GoldPouch → Tx (Unit {0})
update gp = do
  raise_if (not (columns_fit gp)) Error.driver
  row ← gets (pouch_of gp.guild_id)
  raise_if (is_some row && not (leb gp.reserved_balance gp.total_balance)) Error.check_violation
  λ t d. (ok tt, put_pouch gp d)
