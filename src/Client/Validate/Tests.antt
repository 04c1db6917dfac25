-- ===== src/Client/Validate/Tests.antt =====
-- One concrete exchange.
use mvp_vpn_lite.Base.{ℕ, ◌≡◌, ◌↔◌, refl, arith, List, [], ◌∷◌, ok}
use mvp_vpn_lite.Net.{Ip, ipv4, to4}
use mvp_vpn_lite.Packet.Echo.{build_icmp_echo_request, build_icmp_echo_reply}
use mvp_vpn_lite.Client.Validate.{validate_echo_reply}
use mvp_vpn_lite.Client.Validate.Accepts.{IsEchoReply, validate_iff}
use mvp_vpn_lite.Client.Validate.Exchange.{EchoInput, echo_exchange}

-- The virtual IP in its 16-byte form, as net.ParseIP gives it.
abbrev virtual_ip : Ip
unfolding ipv4
virtual_ip = ipv4 10 8 0 1

abbrev server : Ip
server = 10 ∷ 8 ∷ 0 ∷ 1 ∷ []

abbrev client : Ip
client = 10 ∷ 8 ∷ 0 ∷ 2 ∷ []

abbrev text : List ℕ
text = b'm' ∷ b'v' ∷ b'p' ∷ []

small_exchange : EchoInput virtual_ip client server client 0x4d56 1 text
unfolding to4 ipv4
small_exchange = record {
  virtual_is_ipv4 = refl;
  client_is_ipv4 = refl;
  virtual_bytes = omega arith;
  client_bytes = omega arith;
  identifier_u16 = omega arith;
  sequence_u16 = omega arith;
  payload_bytes = omega arith;
  payload_fits = omega arith;
}

echo_exchange_example :
    (request : List ℕ) × (reply : List ℕ) × (build_icmp_echo_request client virtual_ip 0x4d56 1 text
      ≡ ok request)
    × (build_icmp_echo_reply request virtual_ip client ≡ ok reply)
    × (validate_echo_reply reply server client 0x4d56 1 text ≡ ok tt)
echo_exchange_example = echo_exchange virtual_ip client server client 0x4d56 1 text small_exchange

validate_iff_example :
    (validate_echo_reply (0x45 ∷ []) server client 0x4d56 1 text ≡ ok tt)
    ↔ IsEchoReply (0x45 ∷ []) server client 0x4d56 1 text
validate_iff_example = validate_iff (0x45 ∷ []) server client 0x4d56 1 text
