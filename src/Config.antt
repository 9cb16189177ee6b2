-- ===== src/Config.antt =====
-- The configuration, internal/config/config.go. The environment is a function from a name to its
-- value, empty where it is not set; time.ParseDuration is a parameter.
use Prim.Native.String.{String}
use text.Mathlib.Text.{◌==◌ as str_eq}
use dragon_market.Base.{ℤ, pos, ◌*◌, Bool, Option, none, some, if◌then◌else◌}
use dragon_market.Clock.{second}

pub record Config : Type 0 where
  pub port : String
  pub database_url : String
  pub oracle_refresh_interval : ℤ
  pub auction_sweep_interval : ℤ

module _ (getenv : String → String) (parse_duration : String → Option ℤ) where
  abbrev pub is_unset : String → Bool
  is_unset key = str_eq (getenv key) ""

  unfoldable pub string_env : String → String → String
  string_env key fallback = if is_unset key then fallback else getenv key

  -- none is the error of time.ParseDuration.
  unfoldable pub duration_env : String → ℤ → Option ℤ
  duration_env key fallback = if is_unset key then some fallback else parse_duration (getenv key)

  unfoldable pub load : Option Config
  load =
      if is_unset "DATABASE_URL"
      then none
      else elim (duration_env "ORACLE_REFRESH_INTERVAL" (pos (30 * second))) [
        | none ↦ none
        | some oracle_interval ↦ elim (duration_env "AUCTION_SWEEP_INTERVAL" (pos (10 * second))) [
          | none ↦ none
          | some sweep_interval ↦ some (record {
            port = string_env "PORT" "8080";
            database_url = getenv "DATABASE_URL";
            oracle_refresh_interval = oracle_interval;
            auction_sweep_interval = sweep_interval;
          })
        ]
      ]
