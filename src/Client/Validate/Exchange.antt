-- ===== src/Client/Validate/Exchange.antt =====
-- A request, the server's reply to it, and the client's check of the reply.
use mvp_vpn_lite.Base.{
  ℕ, ◌+◌, ◌≤◌, ◌<◌, ◌≡◌, arith, refl, List, ◌++◌, length, All, IsByte, ok, some, take-append,
  length-append,
}
use mvp_vpn_lite.Net.{Ip, to4, length-to4, to4_of_length, ip_equal_refl}
use mvp_vpn_lite.Packet.Checksum.{checksum}
use mvp_vpn_lite.Packet.Checksum.Sum.{checksum_lt}
use mvp_vpn_lite.Packet.Icmp.{IcmpPacket, parse_icmp_packet}
use mvp_vpn_lite.Packet.Echo.{
  icmp_echo, build_ipv4_icmp_packet, build_icmp_echo_request, build_icmp_echo_reply,
}
use mvp_vpn_lite.Packet.Echo.Shape.{message, icmp_echo-message}
use mvp_vpn_lite.Packet.Echo.RoundTrip.{
  icmp_packet_of, summed_header, build-ok, parse_ipv4-build, parse_icmp-message,
}
use mvp_vpn_lite.Packet.Echo.Sums.{header-checksum, message-checksum}
use mvp_vpn_lite.Client.Validate.{validate_echo_reply}
use mvp_vpn_lite.Client.Validate.Accepts.{validate_iff}

-- One exchange's data: two IPv4 addresses, a 16-bit identifier and sequence, and a payload that fits.
pub record EchoInput (virtual_ip client_ip virtual_ipv4 client_ipv4 : Ip) (identifier sequence : ℕ)
    (payload : List ℕ) : Type 0 where
  pub virtual_is_ipv4 : to4 virtual_ip ≡ some virtual_ipv4
  pub client_is_ipv4 : to4 client_ip ≡ some client_ipv4
  pub virtual_bytes : All IsByte virtual_ipv4
  pub client_bytes : All IsByte client_ipv4
  pub identifier_u16 : identifier < 65536
  pub sequence_u16 : sequence < 65536
  pub payload_bytes : All IsByte payload
  pub payload_fits : length payload ≤ 65507

module _ (virtual_ip client_ip virtual_ipv4 client_ipv4 : Ip) (identifier sequence : ℕ)
    (payload : List ℕ)
    (x : EchoInput virtual_ip client_ip virtual_ipv4 client_ipv4 identifier sequence payload) where
  open x use {
    virtual_is_ipv4, client_is_ipv4, virtual_bytes, client_bytes, identifier_u16, sequence_u16,
    payload_bytes, payload_fits,
  }

  abbrev echo_fields : ℕ → IcmpPacket
  echo_fields type = record {
    type = type;
    code = 0;
    checksum = checksum (message type 0 identifier sequence payload);
    identifier = identifier;
    sequence = sequence;
    payload = payload;
  }

  parse_echo :
      (type : ℕ)
      → parse_icmp_packet (icmp_echo type identifier sequence payload) ≡ ok (echo_fields type)
  parse_echo type = rw (icmp_echo-message type identifier sequence payload) (
      parse_icmp-message type _ identifier sequence payload (checksum_lt _) identifier_u16
        sequence_u16)

  length-echo : (type : ℕ) → length (icmp_echo type identifier sequence payload) ≤ 65515
  length-echo type = rw (icmp_echo-message type identifier sequence payload) (omega arith)

  echo-checksum :
      (type : ℕ) → type < 256 → checksum (icmp_echo type identifier sequence payload) ≡ 0
  echo-checksum type h =
      rw (icmp_echo-message type identifier sequence payload)
        (message-checksum type identifier sequence payload h payload_bytes payload_fits)

  abbrev pub request_bytes : List ℕ
  request_bytes =
      let icmp = icmp_echo 8 identifier sequence payload in
      summed_header client_ipv4 virtual_ipv4 icmp ++ icmp

  abbrev pub reply_bytes : List ℕ
  reply_bytes =
      let icmp = icmp_echo 0 identifier sequence payload in
      summed_header virtual_ipv4 client_ipv4 icmp ++ icmp

  request_built :
      build_icmp_echo_request client_ip virtual_ip identifier sequence payload ≡ ok request_bytes
  unfolding build_icmp_echo_request
  request_built =
      build-ok client_ip virtual_ip client_ipv4 virtual_ipv4 _ client_is_ipv4 virtual_is_ipv4
        (length-echo 8)

  reply_built : build_icmp_echo_reply request_bytes virtual_ip client_ip ≡ ok reply_bytes
  unfolding build_icmp_echo_reply build_icmp_echo_request
  reply_built =
      rw
        (
          virtual_is_ipv4,
          client_is_ipv4,
          parse_ipv4-build client_ip virtual_ip client_ipv4 virtual_ipv4 _ request_bytes
              client_is_ipv4 virtual_is_ipv4 request_built,
          ip_equal_refl virtual_ipv4,
          parse_echo 8,
        )
        (build-ok virtual_ipv4 client_ipv4 virtual_ipv4 client_ipv4 _
          (to4_of_length virtual_ipv4 (length-to4 virtual_ip virtual_ipv4 virtual_is_ipv4))
          (to4_of_length client_ipv4 (length-to4 client_ip client_ipv4 client_is_ipv4))
          (length-echo 0))

  reply_valid :
      validate_echo_reply reply_bytes virtual_ipv4 client_ipv4 identifier sequence payload ≡ ok tt
  reply_valid =
      (validate_iff reply_bytes virtual_ipv4 client_ipv4 identifier sequence payload).1 (record {
        packet = icmp_packet_of virtual_ipv4 client_ipv4 icmp;
        message = echo_fields 0;
        long = omega (arith, length-append (virtual_ipv4 ++ client_ipv4) icmp, size);
        header_sum = rw (take-append 20 front icmp (omega (arith, size))) (
            header-checksum (20 + length icmp) virtual_ipv4 client_ipv4 hv hc virtual_bytes
              client_bytes);
        parsed =
            parse_ipv4-build virtual_ip client_ip virtual_ipv4 client_ipv4 icmp (front ++ icmp)
              virtual_is_ipv4 client_is_ipv4 built;
        from_server = ip_equal_refl virtual_ipv4;
        to_client = ip_equal_refl client_ipv4;
        message_sum = echo-checksum 0 (omega arith);
        message_parsed = parse_echo 0;
        is_reply = refl;
        code_zero = refl;
        same_identifier = refl;
        same_sequence = refl;
        same_payload = refl;
      })
    where
      icmp : List ℕ
      icmp = icmp_echo 0 identifier sequence payload

      front : List ℕ
      front = summed_header virtual_ipv4 client_ipv4 icmp

      hv : length virtual_ipv4 ≡ 4
      hv = length-to4 virtual_ip virtual_ipv4 virtual_is_ipv4

      hc : length client_ipv4 ≡ 4
      hc = length-to4 client_ip client_ipv4 client_is_ipv4

      size : length (virtual_ipv4 ++ client_ipv4) ≡ 8
      size = omega (arith, length-append virtual_ipv4 client_ipv4, hv, hc)

      built : build_ipv4_icmp_packet virtual_ip client_ip icmp ≡ ok (front ++ icmp)
      built =
          build-ok virtual_ip client_ip virtual_ipv4 client_ipv4 icmp virtual_is_ipv4 client_is_ipv4
            (length-echo 0)

-- For IPv4 addresses, a 16-bit identifier and sequence number and a payload of at most 65507 bytes:
-- the client's request is built, the server builds a reply to it, and the client's check passes on
-- that reply.
pub echo_exchange :
    (virtual_ip client_ip virtual_ipv4 client_ipv4 : Ip) (identifier sequence : ℕ)
    (payload : List ℕ)
    → EchoInput virtual_ip client_ip virtual_ipv4 client_ipv4 identifier sequence payload
    → (request : List ℕ) × (reply : List ℕ) × (build_icmp_echo_request client_ip virtual_ip
          identifier sequence payload
        ≡ ok request)
      × (build_icmp_echo_reply request virtual_ip client_ip ≡ ok reply)
      × (validate_echo_reply reply virtual_ipv4 client_ipv4 identifier sequence payload ≡ ok tt)
echo_exchange v c v4 c4 identifier sequence payload x = (
  request_bytes v c v4 c4 identifier sequence payload x,
  reply_bytes v c v4 c4 identifier sequence payload x,
  request_built v c v4 c4 identifier sequence payload x,
  reply_built v c v4 c4 identifier sequence payload x,
  reply_valid v c v4 c4 identifier sequence payload x,
)
