-- ===== src/Client/Validate/Accepts.antt =====
-- The replies that validateEchoReply accepts.
use mvp_vpn_lite.Base.{ℕ, ◌≤◌, ◌≡◌, ◌↔◌, arith, true, List, length, take, ok, equal_refl, equal→eq}
use mvp_vpn_lite.Net.{Ip, ip_equal}
use mvp_vpn_lite.Packet.Checksum.{checksum}
use mvp_vpn_lite.Packet.Icmp.{IcmpPacket, parse_icmp_packet}
use mvp_vpn_lite.Packet.Ipv4.{Ipv4Packet, parse_ipv4_packet}
use mvp_vpn_lite.Client.Validate.{validate_echo_reply}

-- A well-formed echo reply from one address to another with the given fields.
pub record IsEchoReply (reply : List ℕ) (virtual_ip client_ip : Ip) (identifier sequence : ℕ)
    (payload : List ℕ) : Type 0 where
  pub packet : Ipv4Packet
  pub message : IcmpPacket
  pub long : 20 ≤ length reply
  pub header_sum : checksum (take 20 reply) ≡ 0
  pub parsed : parse_ipv4_packet reply ≡ ok packet
  pub from_server : ip_equal packet.source_ip virtual_ip ≡ true
  pub to_client : ip_equal packet.destination_ip client_ip ≡ true
  pub message_sum : checksum packet.payload ≡ 0
  pub message_parsed : parse_icmp_packet packet.payload ≡ ok message
  pub is_reply : message.type ≡ 0
  pub code_zero : message.code ≡ 0
  pub same_identifier : message.identifier ≡ identifier
  pub same_sequence : message.sequence ≡ sequence
  pub same_payload : message.payload ≡ payload

module _ (reply : List ℕ) (virtual_ip client_ip : Ip) (identifier sequence : ℕ)
    (payload : List ℕ) where
  accepted :
      IsEchoReply reply virtual_ip client_ip identifier sequence payload
      → validate_echo_reply reply virtual_ip client_ip identifier sequence payload ≡ ok tt
  unfolding validate_echo_reply
  accepted a = ground (arith, equal_refl payload)

  packet_parsed :
      validate_echo_reply reply virtual_ip client_ip identifier sequence payload ≡ ok tt
      → (p : Ipv4Packet) × (parse_ipv4_packet reply ≡ ok p)
  unfolding validate_echo_reply
  packet_parsed e = ground arith

  message_parsed :
      (p : Ipv4Packet)
      → parse_ipv4_packet reply ≡ ok p
      → validate_echo_reply reply virtual_ip client_ip identifier sequence payload ≡ ok tt
      → (q : IcmpPacket) × (parse_icmp_packet p.payload ≡ ok q)
  unfolding validate_echo_reply
  message_parsed p hp e = ground arith

  conditions :
      (p : Ipv4Packet) (q : IcmpPacket)
      → parse_ipv4_packet reply ≡ ok p
      → parse_icmp_packet p.payload ≡ ok q
      → validate_echo_reply reply virtual_ip client_ip identifier sequence payload ≡ ok tt
      → (20 ≤ length reply)
        × (checksum (take 20 reply) ≡ 0)
        × (ip_equal p.source_ip virtual_ip ≡ true)
        × (ip_equal p.destination_ip client_ip ≡ true)
        × (checksum p.payload ≡ 0)
        × (q.type ≡ 0)
        × (q.code ≡ 0)
        × (q.identifier ≡ identifier)
        × (q.sequence ≡ sequence)
        × (q.payload ≡ payload)
  unfolding validate_echo_reply
  conditions p q hp hq e = (
    ground arith,
    ground arith,
    ground arith,
    ground arith,
    ground arith,
    ground arith,
    ground arith,
    ground arith,
    ground arith,
    ground (arith, equal→eq q.payload payload),
  )

  sound :
      validate_echo_reply reply virtual_ip client_ip identifier sequence payload ≡ ok tt
      → IsEchoReply reply virtual_ip client_ip identifier sequence payload
  sound e =
      let (p, hp) = packet_parsed e in
      let (q, hq) = message_parsed p hp e in
      let c = conditions p q hp hq e in
      record {
        packet = p;
        message = q;
        long = c.0;
        header_sum = c.1;
        parsed = hp;
        from_server = c.2;
        to_client = c.3;
        message_sum = c.4;
        message_parsed = hq;
        is_reply = c.5;
        code_zero = c.6;
        same_identifier = c.7;
        same_sequence = c.8;
        same_payload = c.9;
      }

  -- `validateEchoReply` returns no error for exactly the replies of at least 20 bytes whose first 20
  -- bytes and whose ICMP message verify, which parse as IPv4 and as ICMP, come from the virtual
  -- address and go to the client's, and are an echo reply with code 0 and the request's identifier,
  -- sequence number and payload.
  pub validate_iff :
      (validate_echo_reply reply virtual_ip client_ip identifier sequence payload ≡ ok tt)
      ↔ IsEchoReply reply virtual_ip client_ip identifier sequence payload
  validate_iff = (sound, accepted)
