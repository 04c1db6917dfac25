-- ===== src/Policy/Tests.antt =====
-- The policy's theorems at a concrete network and packet.
use mvp_vpn_lite.Base.{ℕ, ◌≡◌, ◌↔◌, refl, arith, true, false, List, [], ◌∷◌, some}
use mvp_vpn_lite.Net.{IpNet, to4, ipv4, contains, network_number_and_mask, masked_equal}
use mvp_vpn_lite.Packet.Ipv4.Parse.{Header, header_bytes}
use mvp_vpn_lite.Policy.{allow, ipv4_endpoints}
use mvp_vpn_lite.Policy.Endpoints.{IsIpv4, source, destination, allow_iff}

-- 10.8.0.0/24
abbrev lan : IpNet
lan = record { ip = 10 ∷ 8 ∷ 0 ∷ 0 ∷ []; mask = 255 ∷ 255 ∷ 255 ∷ 0 ∷ [] }

-- 10.8.0.2 to an address with the given last bytes
abbrev packet_to : ℕ → ℕ → List ℕ
packet_to c d =
    0x45 ∷ 0 ∷ 0 ∷ 20 ∷ 0 ∷ 0 ∷ 0 ∷ 0 ∷ 64 ∷ 1 ∷ 0 ∷ 0 ∷ 10 ∷ 8 ∷ 0 ∷ 2 ∷ 10 ∷ 8 ∷ c ∷ d ∷ []

inside : allow (record { allowed_cidr = some lan }) (packet_to 0 1) ≡ true
unfolding allow ipv4_endpoints contains network_number_and_mask masked_equal to4 ipv4
inside = refl

outside : allow (record { allowed_cidr = some lan }) (packet_to 1 1) ≡ false
unfolding allow ipv4_endpoints contains network_number_and_mask masked_equal to4 ipv4
outside = refl

allow_iff_example : (allow (record { allowed_cidr = some lan }) (packet_to 0 1) ≡ true) ↔ (
    (h : Header) × (packet_to 0 1 ≡ header_bytes h)
    × IsIpv4 h
    × (contains lan (source h) ≡ true)
    × (contains lan (destination h) ≡ true))
allow_iff_example = allow_iff lan (packet_to 0 1) (omega arith)
