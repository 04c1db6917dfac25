-- ===== src/Packet/Echo.antt =====
-- internal/packet/ipv4.go: the builders of echo requests and replies. A buffer is filled by writes
-- into a slice of zeros; the offsets are constants within its length.
pub mod Shape
pub mod RoundTrip
pub mod Sums
pub mod Total
mod Tests
use mvp_vpn_lite.Base.{
  ℕ, ◌+◌, ◌%◌, ◌^◌, List, [], ◌∷◌, Option, some, none, Result, ok, err, ◌>>=◌, ◌>>◌, fail_if,
  or_err, ltb, ◌==◌, not, length, take, set, replicate, copy_at,
}
use mvp_vpn_lite.Net.{Ip, to4, ip_equal}
use mvp_vpn_lite.Packet.Errors.{
  PacketError, virtual_ip_not_ipv4, client_ip_not_ipv4, destination_mismatch, not_echo_request,
  source_not_ipv4, destination_not_ipv4, packet_too_large,
}
use mvp_vpn_lite.Packet.Endian.{put_uint16}
use mvp_vpn_lite.Packet.Checksum.{checksum}
use mvp_vpn_lite.Packet.Icmp.{icmp_type_echo_reply, icmp_type_echo_request, parse_icmp_packet}
use mvp_vpn_lite.Packet.Ipv4.{
  ipv4_protocol_icmp, ipv4_min_header_len, ipv4_default_ttl, parse_ipv4_packet,
}

-- The lines that fill `icmpPayload` and `icmpReply`, which differ in the type alone.
pub icmp_echo : ℕ → ℕ → ℕ → List ℕ → List ℕ
icmp_echo type identifier sequence payload =
    let message = set (set (replicate (8 + length payload) 0) 0 type) 1 0 in
    let message = put_uint16 (put_uint16 message 4 identifier) 6 sequence in
    let message = copy_at 8 message payload in put_uint16 message 2 (checksum message)

-- The header of twenty bytes, its checksum field still zero.
abbrev pub unsummed_header : ℕ → Ip → Ip → List ℕ → List ℕ
unsummed_header total_len source_ipv4 destination_ipv4 packet =
    let packet = set (set packet 0 0x45) 1 0 in
    let packet = put_uint16 packet 2 (total_len % 2 ^ 16) in
    let packet = put_uint16 (put_uint16 packet 4 0) 6 0 in
    let packet = set (set packet 8 ipv4_default_ttl) 9 ipv4_protocol_icmp in
    copy_at 16 (copy_at 12 packet (take 4 source_ipv4)) (take 4 destination_ipv4)

pub build_ipv4_icmp_packet : Ip → Ip → List ℕ → Result PacketError (List ℕ)
build_ipv4_icmp_packet source_ip destination_ip icmp_payload = do
  source_ipv4 ← or_err (to4 source_ip) source_not_ipv4
  destination_ipv4 ← or_err (to4 destination_ip) destination_not_ipv4
  let total_len = ipv4_min_header_len + length icmp_payload
  fail_if (ltb 0xffff total_len) packet_too_large
  let reply = unsummed_header total_len source_ipv4 destination_ipv4 (replicate total_len 0)
  let reply = put_uint16 reply 10 (checksum (take ipv4_min_header_len reply))
  ok (copy_at ipv4_min_header_len reply icmp_payload)

unfoldable pub build_icmp_echo_request : Ip → Ip → ℕ → ℕ → List ℕ → Result PacketError (List ℕ)
build_icmp_echo_request source_ip destination_ip identifier sequence payload =
    build_ipv4_icmp_packet source_ip destination_ip
      (icmp_echo icmp_type_echo_request identifier sequence payload)

unfoldable pub build_icmp_echo_reply : List ℕ → Ip → Ip → Result PacketError (List ℕ)
build_icmp_echo_reply request virtual_server_ip client_ip = do
  server_ipv4 ← or_err (to4 virtual_server_ip) virtual_ip_not_ipv4
  client_ipv4 ← or_err (to4 client_ip) client_ip_not_ipv4
  ip_packet ← parse_ipv4_packet request
  fail_if (not (ip_equal ip_packet.destination_ip server_ipv4)) destination_mismatch
  icmp_packet ← parse_icmp_packet ip_packet.payload
  fail_if (not (icmp_packet.type == icmp_type_echo_request)) (not_echo_request icmp_packet.type)
  build_ipv4_icmp_packet server_ipv4 client_ipv4 (
      icmp_echo icmp_type_echo_reply icmp_packet.identifier icmp_packet.sequence
        icmp_packet.payload)
