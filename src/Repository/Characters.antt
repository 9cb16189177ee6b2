-- ===== src/Repository/Characters.antt =====
-- internal/repository/character.go over the table of migrations/000001 and 000003.
use Prim.Native.String.{String}
use dragon_market.Base.{ℕ, ◌+◌, Option, none, some, List, [], ◌∷◌, ◌++◌, ◌==◌}
use dragon_market.Repository.Tables.{find_row}
use dragon_market.Repository.Rows.{Character}
use dragon_market.Repository.Db.{Db, Tx, Error, ok, ◌>>=◌, ◌>>◌, pure, or_raise, gets, require_row}
use dragon_market.Repository.TransactionLogs.{guild_row}

abbrev next_id : Tx ℕ
next_id t d =
    let id = d.next.characters in
    (ok id, record d { next = record (d.next) { characters = id + 1 } })

abbrev pub character_row : ℕ → Db → Option Character
character_row id d = find_row (λ r. r.id == id) d.characters

-- The foreign key of a column that may be NULL.
abbrev require_guild : Option ℕ → Tx (Unit {0})
require_guild none = pure tt
require_guild (some g) = do require_row (← gets (guild_row g))

unfoldable pub create : String → String → Option String → Option ℕ → Tx Character
create name land_of_origin stats guild_id = do
  id ← next_id
  require_guild guild_id
  let c : Character = record {
    id = id;
    name = name;
    land_of_origin = land_of_origin;
    stats = stats;
    guild_id = guild_id;
  }
  λ t d. (ok c, record d { characters = d.characters ++ c ∷ [] })

unfoldable pub get_by_id : ℕ → Tx Character
get_by_id id = do or_raise (← gets (character_row id)) Error.not_found

unfoldable pub list : Tx (List Character)
list = gets (λ d. d.characters)
