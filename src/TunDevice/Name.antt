-- ===== src/TunDevice/Name.antt =====
-- internal/tun/tun.go: normalizeDeviceName. The white space of strings.TrimSpace is that of
-- unicode.IsSpace.
pub mod Trims
use Prim.Native.Char.{Char, code}
use Prim.Native.String.{String, [], ◌∷◌}
use text.Mathlib.Text.{◌==◌ as str_eq}
use mvp_vpn_lite.Base.{Bool, ◌||◌, ◌&&◌, ◌==◌, leb, if◌then◌else◌}

unfoldable pub is_space : Char → Bool
is_space c =
    let n = code c in
    (leb 0x9 n && leb n 0xd)
    || n == 0x20
    || n == 0x85
    || n == 0xa0
    || n == 0x1680
    || (leb 0x2000 n && leb n 0x200a)
    || n == 0x2028
    || n == 0x2029
    || n == 0x202f
    || n == 0x205f
    || n == 0x3000

unfoldable pub trim_left : String → String
trim_left [] = []
trim_left (c ∷ s) = let rest = trim_left s in if is_space c then rest else c ∷ s

unfoldable pub trim_right : String → String
trim_right [] = []
trim_right (c ∷ s) =
    let rest = trim_right s in if is_space c && str_eq rest "" then [] else c ∷ rest

unfoldable pub trim_space : String → String
unfolding trim_left trim_right
trim_space s = trim_right (trim_left s)

abbrev pub default_device_name : String
default_device_name = "mvpvpn0"

unfoldable pub normalize_device_name : String → String
unfolding trim_space
normalize_device_name name =
    let name = trim_space name in if str_eq name "" then default_device_name else name
