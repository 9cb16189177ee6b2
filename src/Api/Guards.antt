-- ===== src/Api/Guards.antt =====
-- Which requests the guards in front of the handlers let through.
use dragon_market.Base.{ℤ, pos, positive, ◌≡◌, refl, false, none, some, arith, ap, ◌≢◌, [], ◌∷◌}
use dragon_market.Strconv.{Text, NumError, parse_int, format_int}
use dragon_market.Strconv.RoundTrip.{IsInt64, parse_int-format_int}
use dragon_market.Repository.Db.{Db}
use dragon_market.Api.{Context, Handler}
use dragon_market.Api.Errors.{write_error}
use dragon_market.Api.Middleware.{parse_param, guild_header, require_guild_id, is_empty}

-- Every int64 in a path, as FormatInt writes it, is read back.
pub parse_param-format_int : (v : ℤ) → IsInt64 v → parse_param (format_int v) ≡ some v
unfolding parse_param
parse_param-format_int v h =
    ap (λ r. elim r.1 [ none ↦ some r.0 | some _ ↦ none ]) (parse_int-format_int v h)

no_error : {e : NumError} → some e ≢ none
no_error h = cc

is_empty-parsed : (s : Text) (v : ℤ) → parse_int s ≡ (v, none) → is_empty s ≡ false
unfolding parse_int
is_empty-parsed [] v e = absurd (no_error (ap (λ r. r.1) e))
is_empty-parsed (c ∷ s) v e = refl

-- A header X-Guild-ID that spells an int64, as FormatInt writes it, is let through exactly where the
-- number is above zero, and the handler then finds that number in the context.
pub require_guild_id-format_int :
    (next : Handler) (c : Context) (v : ℤ) (d : Db)
    → IsInt64 v
    → c.request.guild_header ≡ format_int v
    → require_guild_id next c d ≡ elim (positive v) [
      | none ↦ (write_error 400 "INVALID_GUILD_HEADER", d)
      | some id ↦ next (record c { guild = some (pos id) }) d
    ]
unfolding require_guild_id guild_header
require_guild_id-format_int next c v d h e =
    let full : is_empty c.request.guild_header ≡ false =
      rw e (is_empty-parsed _ v (parse_int-format_int v h)) in
    let parsed : parse_param c.request.guild_header ≡ some v = rw e (parse_param-format_int v h) in
    ground (arith, full, parsed)
