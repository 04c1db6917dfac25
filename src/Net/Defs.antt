-- ===== src/Net/Defs.antt =====
-- net.IP as a byte slice (nil is the empty one), its methods To4 and Equal, net.IPv4, and
-- IPNet.Contains, as Go documents them.
use mathlib.Core.Option
use mvp_vpn_lite.Base.{
  ℕ, Bool, true, false, ◌&&◌, Option, none, some, List, [], ◌∷◌, ◌++◌, length, take, drop, equal,
  ◌==◌, if◌then◌else◌, bit_and,
}

abbrev pub Ip : Type 0
Ip = List ℕ

abbrev pub v4_in_v6_prefix : List ℕ
v4_in_v6_prefix = 0 ∷ 0 ∷ 0 ∷ 0 ∷ 0 ∷ 0 ∷ 0 ∷ 0 ∷ 0 ∷ 0 ∷ 0xff ∷ 0xff ∷ []

-- `ip.To4()`: the 4-byte form, or nil.
unfoldable pub to4 : Ip → Option Ip
to4 ip =
    if length ip == 4
    then some ip
    else if length ip == 16 && equal (take 12 ip) v4_in_v6_prefix
    then some (drop 12 ip)
    else none

-- `ip.Equal(x)`: an IPv4 address and its IPv6 form are equal.
unfoldable pub ip_equal : Ip → Ip → Bool
ip_equal ip x =
    if length ip == length x
    then equal ip x
    else if length ip == 4 && length x == 16
    then equal (take 12 x) v4_in_v6_prefix && equal ip (drop 12 x)
    else if length ip == 16 && length x == 4
    then equal (take 12 ip) v4_in_v6_prefix && equal (drop 12 ip) x
    else false

-- `net.IPv4(a, b, c, d)`: the 16-byte form.
unfoldable pub ipv4 : ℕ → ℕ → ℕ → ℕ → Ip
ipv4 a b c d = v4_in_v6_prefix ++ (a ∷ b ∷ c ∷ d ∷ [])

pub record IpNet : Type 0 where
  pub ip : Ip
  pub mask : List ℕ

-- `nn[i]&m[i] == ip[i]&m[i]` at every index
unfoldable pub masked_equal : List ℕ → List ℕ → List ℕ → Bool
masked_equal (n ∷ nn) (m ∷ ms) (x ∷ xs) = (bit_and n m == bit_and x m) && masked_equal nn ms xs
masked_equal _ _ _ = true

fit_mask : Ip → List ℕ → Option (Ip × List ℕ)
fit_mask number m =
    if length m == 4
    then if length number == 4 then some (number, m) else none
    else if length m == 16
    then some (number, if length number == 4 then drop 12 m else m)
    else none

-- The network number and the mask at one width, or nothing if they do not fit.
unfoldable pub network_number_and_mask : IpNet → Option (Ip × List ℕ)
unfolding fit_mask
network_number_and_mask n = elim (to4 n.ip) [
  | some number ↦ fit_mask number n.mask
  | none ↦ if length n.ip == 16 then fit_mask n.ip n.mask else none
]

-- `n.Contains(ip)`
unfoldable pub contains : IpNet → Ip → Bool
contains n ip =
    let x = Option.get_or (to4 ip) ip in
    elim (network_number_and_mask n) [
      | none ↦ length x == 0
      | some (number, mask) ↦ length x == length number && masked_equal number mask x
    ]
