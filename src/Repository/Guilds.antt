-- ===== src/Repository/Guilds.antt =====
-- internal/repository/guild.go over the table of migrations/000002.
use Prim.Native.String.{String}
use text.Mathlib.Text.{◌==◌ as str_eq}
use dragon_market.Base.{ℕ, ◌+◌, Option, List, [], ◌∷◌, ◌++◌}
use dragon_market.Repository.Tables.{find_row}
use dragon_market.Repository.Rows.{Guild}
use dragon_market.Repository.Db.{
  Db, Tx, Error, ok, ◌>>=◌, ◌>>◌, raise_if, or_raise, gets, is_some, require_row,
}
use dragon_market.Repository.Characters.{character_row}
use dragon_market.Repository.TransactionLogs.{guild_row}

abbrev next_id : Tx ℕ
next_id t d =
    let id = d.next.guilds in (ok id, record d { next = record (d.next) { guilds = id + 1 } })

abbrev pub guild_named : String → Db → Option Guild
guild_named name d = find_row (λ g. str_eq g.name name) d.guilds

unfoldable pub create : String → ℕ → String → Tx Guild
create name leader_character_id land_of_origin = do
  id ← next_id
  row ← gets (guild_named name)
  raise_if (is_some row) Error.unique_violation
  require_row (← gets (character_row leader_character_id))
  let g : Guild = record {
    id = id;
    name = name;
    leader_character_id = leader_character_id;
    land_of_origin = land_of_origin;
  }
  λ t d. (ok g, record d { guilds = d.guilds ++ g ∷ [] })

unfoldable pub get_by_id : ℕ → Tx Guild
get_by_id id = do or_raise (← gets (guild_row id)) Error.not_found

unfoldable pub get_by_name : String → Tx Guild
get_by_name name = do or_raise (← gets (guild_named name)) Error.not_found

unfoldable pub list : Tx (List Guild)
list = gets (λ d. d.guilds)
