-- ===== src/Repository/TransactionLogs.antt =====
-- internal/repository/transactionlog.go over the table of migrations/000010.
use dragon_market.Base.{ℕ, ◌+◌, not, Option, List, [], ◌∷◌, ◌++◌, ◌==◌}
use dragon_market.Repository.Tables.{find_row, select}
use dragon_market.Repository.Rows.{TransactionLog, TransactionType, Reference, Guild}
use dragon_market.Repository.Db.{
  Db, Tx, Error, ok, ◌>>=◌, ◌>>◌, raise_if, or_raise, gets, fits, db_now, require_row,
}

-- nextval of the sequence
abbrev pub next_id : Tx ℕ
next_id t d =
    let id = d.next.transaction_logs in
    (ok id, record d { next = record (d.next) { transaction_logs = id + 1 } })

abbrev pub guild_row : ℕ → Db → Option Guild
guild_row g d = find_row (λ r. r.id == g) d.guilds

unfoldable pub create : ℕ → TransactionType → ℕ → Option Reference → Tx TransactionLog
create guild_id kind amount reference = do
  raise_if (not (fits amount)) Error.driver
  id ← next_id
  created_at ← db_now
  require_row (← gets (guild_row guild_id))
  let tl : TransactionLog = record {
    id = id;
    guild_id = guild_id;
    kind = kind;
    amount = amount;
    reference = reference;
    created_at = created_at;
  }
  λ t d. (ok tl, record d { transaction_logs = d.transaction_logs ++ tl ∷ [] })

unfoldable get_by_id : ℕ → Tx TransactionLog
get_by_id id = do
  or_raise (← gets (λ d. find_row (λ r. r.id == id) d.transaction_logs)) Error.not_found

unfoldable list_by_guild_id : ℕ → Tx (List TransactionLog)
list_by_guild_id g = gets (λ d. select (λ r. r.guild_id == g) d.transaction_logs)
