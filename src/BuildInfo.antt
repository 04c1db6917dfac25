-- ===== src/BuildInfo.antt =====
-- internal/buildinfo/buildinfo.go. The build sets the version and the commit.
use Prim.Native.String.{String, ◌++◌}
use text.Mathlib.Text.{◌==◌ as str_eq}
use mvp_vpn_lite.Base.{if◌then◌else◌}

pub version_string : String → String → String → String
version_string version commit binary =
    if str_eq commit ""
    then binary ++ (" " ++ version)
    else binary ++ (" " ++ (version ++ (" (" ++ (commit ++ ")"))))
