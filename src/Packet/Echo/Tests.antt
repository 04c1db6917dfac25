-- ===== src/Packet/Echo/Tests.antt =====
-- The builders' theorems at concrete addresses.
use mvp_vpn_lite.Base.{◌≡◌, refl, arith, [], ◌∷◌, ◌++◌, ok}
use mvp_vpn_lite.Net.{Ip, to4}
use mvp_vpn_lite.Packet.Ipv4.{parse_ipv4_packet}
use mvp_vpn_lite.Packet.Echo.RoundTrip.{icmp_packet_of, summed_header, build-ok, parse_ipv4-build}

abbrev server : Ip
server = 10 ∷ 8 ∷ 0 ∷ 1 ∷ []

abbrev client : Ip
client = 10 ∷ 8 ∷ 0 ∷ 2 ∷ []

parse_ipv4-build_example :
    parse_ipv4_packet (summed_header client server (8 ∷ 0 ∷ []) ++ (8 ∷ 0 ∷ []))
    ≡ ok (icmp_packet_of client server (8 ∷ 0 ∷ []))
unfolding to4
parse_ipv4-build_example =
    parse_ipv4-build client server client server (8 ∷ 0 ∷ []) _ refl refl
      (build-ok client server client server (8 ∷ 0 ∷ []) refl refl (omega arith))
