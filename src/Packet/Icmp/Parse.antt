-- ===== src/Packet/Icmp/Parse.antt =====
-- ParseICMPPacket on every input.
use mvp_vpn_lite.Base.{ℕ, ◌≢◌, arith, List, ◌∷◌, panic}
use mvp_vpn_lite.Packet.Icmp.{parse_icmp_packet}

-- No index or slice expression of `ParseICMPPacket` is out of range, whatever the input.
pub parse_icmp-ne-panic : (bytes : List ℕ) → parse_icmp_packet bytes ≢ panic
unfolding parse_icmp_packet
parse_icmp-ne-panic (b0 ∷ b1 ∷ b2 ∷ b3 ∷ b4 ∷ b5 ∷ b6 ∷ b7 ∷ rest) e = ground arith
parse_icmp-ne-panic _ e = ground arith
