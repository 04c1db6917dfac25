-- ===== src/Policy/Endpoints.antt =====
-- What the packet policy lets through.
use mvp_vpn_lite.Base.{
  ℕ, ◌+◌, ◌*◌, ◌/◌, ◌%◌, ◌≤◌, ◌<◌, ◌≡◌, ◌≢◌, ◌↔◌, arith, true, some, List, ◌++◌, length, All,
  IsByte, ok, err, panic, lt→ltb,
}
use native.Mathlib.Decide.{dec_lt}
use mvp_vpn_lite.Base.Bits.{bit_and_low4, bit_or_byte}
use mvp_vpn_lite.Net.{Ip, v4_in_v6_prefix, IpNet, contains, ipv4}
use mvp_vpn_lite.Packet.Ipv4.{Ipv4Packet, parse_ipv4_packet}
use mvp_vpn_lite.Packet.Ipv4.Parse.{Header, header_bytes, header_view, parse_ipv4_iff}
use mvp_vpn_lite.Policy.{PacketPolicy, ipv4_endpoints, allow}

-- The structure that the policy demands of a packet.
pub record IsIpv4 (h : Header) : Type 0 where
  pub version_is_4 : h.b0 / 16 ≡ 4
  pub header_min : 20 ≤ h.b0 % 16 * 4
  pub header_le_total : h.b0 % 16 * 4 ≤ h.b2 * 256 + h.b3
  pub total_le_length : h.b2 * 256 + h.b3 ≤ length (header_bytes h)

abbrev pub source : Header → Ip
source h = ipv4 h.b12 h.b13 h.b14 h.b15

abbrev pub destination : Header → Ip
destination h = ipv4 h.b16 h.b17 h.b18 h.b19

endpoints_of :
    (h : Header)
    → h.b3 < 256
    → IsIpv4 h
    → ipv4_endpoints (header_bytes h) ≡ ok (source h, destination h)
unfolding ipv4_endpoints
endpoints_of h byte w = ground (arith, bit_and_low4 h.b0, bit_or_byte h.b2 h.b3)

endpoints_sound :
    (h : Header) (e : Ip × Ip) → h.b3 < 256 → ipv4_endpoints (header_bytes h) ≡ ok e → IsIpv4 h
unfolding ipv4_endpoints
endpoints_sound h e byte found = ground (arith, bit_and_low4 h.b0, bit_or_byte h.b2 h.b3)

endpoints_short : (bytes : List ℕ) → length bytes < 20 → ipv4_endpoints bytes ≡ err tt
unfolding ipv4_endpoints
endpoints_short bytes lt = rw (lt→ltb _ _ lt)

endpoints_header-ne-panic : (h : Header) → ipv4_endpoints (header_bytes h) ≢ panic
unfolding ipv4_endpoints
endpoints_header-ne-panic h e = ground (arith, bit_and_low4 h.b0)

-- No index expression of `ipv4Endpoints` is out of range, whatever the packet.
pub ipv4_endpoints-ne-panic : (bytes : List ℕ) → ipv4_endpoints bytes ≢ panic
ipv4_endpoints-ne-panic bytes e = elim (dec_lt (length bytes) 20) [
  | yes lt ↦ absurd (cc (endpoints_short bytes lt))
  | no ge ↦
      let (h, view) = header_view bytes (omega arith) in endpoints_header-ne-panic h (rw view at e)
]

abbrev limited : IpNet → PacketPolicy
limited network = record { allowed_cidr = some network }

module _ (network : IpNet) where
  endpoints_found :
      (bytes : List ℕ)
      → allow (limited network) bytes ≡ true
      → (e : Ip × Ip) × (ipv4_endpoints bytes ≡ ok e)
  unfolding allow
  endpoints_found bytes e = ground arith

  allow_header :
      (h : Header)
      → h.b3 < 256
      → allow (limited network) (header_bytes h) ≡ true
      → IsIpv4 h × (contains network (source h) ≡ true) × (contains network (destination h) ≡ true)
  unfolding allow
  allow_header h byte e =
      let (p, found) = endpoints_found (header_bytes h) e in
      let w = endpoints_sound h p byte found in
      (w, ground (arith, endpoints_of h byte w), ground (arith, endpoints_of h byte w))

  header_allow :
      (h : Header)
      → h.b3 < 256
      → IsIpv4 h
      → contains network (source h) ≡ true
      → contains network (destination h) ≡ true
      → allow (limited network) (header_bytes h) ≡ true
  unfolding allow
  header_allow h byte w s d = ground (arith, endpoints_of h byte w)

  -- With a CIDR configured the policy lets through exactly the packets with a well-formed IPv4
  -- header (version 4, header length from 20 to the total length, total length within the packet)
  -- whose source and destination addresses both lie in the CIDR.
  pub allow_iff :
      (bytes : List ℕ)
      → All IsByte bytes
      → (allow (record { allowed_cidr = some network }) bytes ≡ true) ↔ (
          (h : Header) × (bytes ≡ header_bytes h)
          × IsIpv4 h
          × (contains network (source h) ≡ true)
          × (contains network (destination h) ≡ true))
  unfolding allow
  allow_iff bytes valid = (
    λ e. elim (dec_lt (length bytes) 20) [
      | yes lt ↦ absurd (ground (arith, endpoints_short bytes lt))
      | no ge ↦
          let (h, view) = header_view bytes (omega arith) in
          let all : All IsByte (header_bytes h) = rw view at valid in
          let found = allow_header h all.1.1.1.0 (rw view at e) in
          (h, view, found.0, found.1, found.2)
    ],
    λ t.
        let all : All IsByte (header_bytes t.0) = rw t.1 at valid in
        rw t.1 (header_allow t.0 all.1.1.1.0 t.2 t.3 t.4),
  )

-- A packet that `ParseIPv4Packet` accepts has the endpoints that the parser reports, in their 16-byte
-- form.
pub endpoints-parse :
    (bytes : List ℕ) (p : Ipv4Packet)
    → All IsByte bytes
    → parse_ipv4_packet bytes ≡ ok p
    → ipv4_endpoints bytes
      ≡ ok (v4_in_v6_prefix ++ p.source_ip, v4_in_v6_prefix ++ p.destination_ip)
unfolding ipv4
endpoints-parse bytes p valid e =
    let (h, view, a, same) = (parse_ipv4_iff bytes p).0 e in
    let all : All IsByte (header_bytes h) = rw view at valid in
    rw (view, same)
      (endpoints_of h all.1.1.1.0 (record {
        version_is_4 = a.version_is_4;
        header_min = a.header_min;
        header_le_total = a.header_le_total;
        total_le_length = a.total_le_length;
      }))
