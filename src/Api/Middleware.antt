-- ===== src/Api/Middleware.antt =====
-- What runs in front of a handler, internal/api/middleware.go, and the parsing of ids in a path and
-- of a page's limits.
use Prim.Native.String.{String}
use dragon_market.Base.{
  ℕ, ℤ, pos, positive, Bool, true, false, if◌then◌else◌, Option, none, some, [], ◌∷◌,
}
use dragon_market.Strconv.{Text, parse_int}
use dragon_market.Repository.Db.{Db}
use dragon_market.Api.{Context, Handler, Response}
use dragon_market.Api.Errors.{write_error}

-- parseInt64Param, and parseItemID for the parameter "id": the number, where there is no error.
unfoldable pub parse_param : Text → Option ℤ
parse_param s = let (v, e) = parse_int s in elim e [ none ↦ some v | some _ ↦ none ]

-- The errors of Atoi are dropped: of a text that is no number 0 is left, of one that is out of
-- range the nearest int64.
unfoldable pub parse_limit_offset : Text → Text → ℤ × ℤ
parse_limit_offset limit offset = ((parse_int limit).0, (parse_int offset).0)

-- The test `err != nil || id <= 0` of RequireGuildID.
abbrev positive_param : Option ℤ → Option ℕ
positive_param none = none
positive_param (some v) = positive v

unfoldable pub guild_header : Text → Option ℕ
guild_header raw = positive_param (parse_param raw)

abbrev pub is_empty : Text → Bool
is_empty [] = true
is_empty (_ ∷ _) = false

unfoldable pub require_guild_id : Handler → Handler
require_guild_id next c d =
    if is_empty c.request.guild_header
    then (write_error 400 "MISSING_GUILD_HEADER", d)
    else elim (guild_header c.request.guild_header) [
      | none ↦ (write_error 400 "INVALID_GUILD_HEADER", d)
      | some id ↦ next (record c { guild = some (pos id) }) d
    ]

-- A parameter of the path that is no int64 is refused with the code, else its number goes on.
unfoldable pub with_param : String → Text → (ℤ → Db → Response × Db) → Db → Response × Db
with_param code raw next d = elim (parse_param raw) [
  | none ↦ (write_error 400 code, d)
  | some id ↦ next id d
]

unfoldable pub validate_item_id_param : Handler → Handler
validate_item_id_param next c = with_param "INVALID_ITEM_ID" c.request.id (λ _. next c)

unfoldable pub validate_bid_id_param : Handler → Handler
validate_bid_id_param next c = with_param "INVALID_BID_ID" c.request.bid_id (λ _. next c)

unfoldable pub guild_id_from_context : Context → ℤ
guild_id_from_context c = elim c.guild [ none ↦ pos 0 | some id ↦ id ]
