-- ===== src/Packet/Ipv4/Tests.antt =====
-- The parser's theorems at concrete slices.
use mvp_vpn_lite.Base.{ℕ, ◌≡◌, ◌↔◌, refl, List, [], ◌∷◌, ok, err}
use mvp_vpn_lite.Packet.Errors.{unsupported_version}
use mvp_vpn_lite.Packet.Ipv4.{Ipv4Packet, parse_ipv4_packet}
use mvp_vpn_lite.Packet.Ipv4.Parse.{Header, header_bytes, Accepts, packet_of, parse_ipv4_iff}

-- 10.8.0.2 to 10.8.0.1, two bytes of payload and one of padding.
abbrev padded : List ℕ
padded =
    0x45 ∷ 0 ∷ 0 ∷ 22 ∷ 0 ∷ 0 ∷ 0 ∷ 0 ∷ 64 ∷ 1 ∷ 0 ∷ 0 ∷ 10 ∷ 8 ∷ 0 ∷ 2 ∷ 10 ∷ 8 ∷ 0 ∷ 1 ∷ 7 ∷ 9 ∷ 0
    ∷ []

abbrev padded_packet : Ipv4Packet
padded_packet = record {
  version = 4;
  ihl = 20;
  total_length = 22;
  protocol = 1;
  source_ip = 10 ∷ 8 ∷ 0 ∷ 2 ∷ [];
  destination_ip = 10 ∷ 8 ∷ 0 ∷ 1 ∷ [];
  payload = 7 ∷ 9 ∷ [];
}

parse_padded : parse_ipv4_packet padded ≡ ok padded_packet
unfolding parse_ipv4_packet
parse_padded = refl

-- An IPv6 packet.
parse_version_6 :
    parse_ipv4_packet
      (0x60 ∷ 0 ∷ 0 ∷ 0 ∷ 0 ∷ 0 ∷ 0 ∷ 0 ∷ 0 ∷ 0 ∷ 0 ∷ 0 ∷ 0 ∷ 0 ∷ 0 ∷ 0 ∷ 0 ∷ 0 ∷ 0 ∷ 0 ∷ [])
    ≡ err (unsupported_version 6)
unfolding parse_ipv4_packet
parse_version_6 = refl

parse_ipv4_iff_example :
    (parse_ipv4_packet padded ≡ ok padded_packet)
    ↔ ((h : Header) × (padded ≡ header_bytes h) × Accepts h × (padded_packet ≡ packet_of h))
parse_ipv4_iff_example = parse_ipv4_iff padded padded_packet
