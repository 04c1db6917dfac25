-- ===== src/Flags.antt =====
-- The flags of the commands, as cmd/client/main.go and cmd/server/main.go declare them.
use Prim.Native.String.{String}
use mathlib.Core.Option
use mvp_vpn_lite.Base.{Option}
use mvp_vpn_lite.EnvConfig.{env_string}

-- A flag that is given goes before its default.
abbrev pub flag_or : {A : Type 0} → Option A → A → A
flag_or flag default = Option.get_or flag default

-- `flag.String(…, envconfig.String(name, fallback), …)`
abbrev pub text_flag : (String → Option String) → Option String → String → String → String
text_flag lookup_env flag name fallback = flag_or flag (env_string lookup_env name fallback)
