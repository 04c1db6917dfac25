-- ===== src/Policy.antt =====
-- internal/quictransport/packet_policy.go.
pub mod Endpoints
mod Tests
use mvp_vpn_lite.Base.{
  ℕ, ◌+◌, ◌*◌, ◌/◌, ◌^◌, Bool, true, false, not, ◌&&◌, ◌||◌, Option, none, some, List, Result, ok,
  err, panic, ◌>>=◌, ◌>>◌, fail_if, index, length, ltb, ◌==◌, if◌then◌else◌, bit_and, bit_or,
}
use text.Mathlib.Text.{◌==◌ as str_eq}
use Prim.Native.String.{String}
use mvp_vpn_lite.Net.{Ip, to4, ipv4, IpNet, contains}

pub record PacketPolicy : Type 0 where
  pub allowed_cidr : Option IpNet

pub data PolicyError : Type 0 where
  parse_cidr_failed : PolicyError
  not_ipv4 : String → PolicyError

-- The network of net.ParseCIDR is a parameter: `none` stands for its error.
unfoldable pub new_packet_policy :
    (String → Option IpNet) → String → Result PolicyError PacketPolicy
new_packet_policy parse_cidr allowed_cidr =
    if str_eq allowed_cidr ""
    then ok (record { allowed_cidr = none })
    else elim (parse_cidr allowed_cidr) [
      | none ↦ err parse_cidr_failed
      | some network ↦ elim (to4 network.ip) [
        | none ↦ err (not_ipv4 allowed_cidr)
        | some _ ↦ ok (record { allowed_cidr = some network })
      ]
    ]

-- `ok = false` is the error here; the addresses are in their 16-byte form.
unfoldable pub ipv4_endpoints : List ℕ → Result (Unit {0}) (Ip × Ip)
ipv4_endpoints raw_packet = do
  fail_if (ltb (length raw_packet) 20) tt
  first ← index raw_packet 0
  fail_if (not (first / 2 ^ 4 == 4)) tt
  let header_len = bit_and first 0x0f * 4
  fail_if (ltb header_len 20 || ltb (length raw_packet) header_len) tt
  high ← index raw_packet 2
  low ← index raw_packet 3
  let total_len = bit_or (high * 2 ^ 8) low
  fail_if (ltb total_len header_len || ltb (length raw_packet) total_len) tt
  s0 ← index raw_packet 12
  s1 ← index raw_packet 13
  s2 ← index raw_packet 14
  s3 ← index raw_packet 15
  d0 ← index raw_packet 16
  d1 ← index raw_packet 17
  d2 ← index raw_packet 18
  d3 ← index raw_packet 19
  ok (ipv4 s0 s1 s2 s3, ipv4 d0 d1 d2 d3)

-- A panic would be a crash of the process; `Endpoints` proves that there is none.
unfoldable pub allow : PacketPolicy → List ℕ → Bool
allow p raw_packet = elim p.allowed_cidr [
  | none ↦ true
  | some network ↦ elim (ipv4_endpoints raw_packet) [
    | ok (source_ip, destination_ip) ↦ contains network source_ip && contains network destination_ip
    | _ ↦ false
  ]
]
