-- ===== src/EnvConfig.antt =====
-- internal/envconfig/envconfig.go. The environment is a parameter, and so are the parsers of strconv
-- and time, where `none` stands for their error.
use Prim.Native.String.{String}
use mathlib.Core.Option
use mvp_vpn_lite.Base.{ℕ, Bool, Option, none, some, Result, ok, or_err}
use mvp_vpn_lite.Base.Int.{ℤ}

pub record Parsers : Type 0 where
  pub parse_bool : String → Option Bool
  pub atoi : String → Option ℤ
  pub parse_uint : String → Option ℕ
  pub parse_duration : String → Option ℤ

pub data EnvError : Type 0 where
  not_boolean : String → EnvError
  not_integer : String → EnvError
  not_unsigned : String → EnvError
  not_duration : String → EnvError

-- After `os.LookupEnv`.
unfoldable pub parsed :
    {A : Type 0} → EnvError → (String → Option A) → A → Option String → Result EnvError A
parsed failed parse fallback none = ok fallback
parsed failed parse fallback (some value) = or_err (parse value) failed

module _ (lookup_env : String → Option String) where
  unfoldable pub env_string : String → String → String
  env_string name fallback = Option.get_or (lookup_env name) fallback

  module _ (parsers : Parsers) where
    unfoldable pub env_bool : String → Bool → Result EnvError Bool
    env_bool name fallback = parsed (not_boolean name) parsers.parse_bool fallback (lookup_env name)

    unfoldable pub env_int : String → ℤ → Result EnvError ℤ
    env_int name fallback = parsed (not_integer name) parsers.atoi fallback (lookup_env name)

    unfoldable pub env_uint : String → ℕ → Result EnvError ℕ
    env_uint name fallback =
        parsed (not_unsigned name) parsers.parse_uint fallback (lookup_env name)

    unfoldable pub env_duration : String → ℤ → Result EnvError ℤ
    env_duration name fallback =
        parsed (not_duration name) parsers.parse_duration fallback (lookup_env name)
