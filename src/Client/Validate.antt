-- ===== src/Client/Validate.antt =====
-- internal/quictransport/client.go: validateEchoReply.
pub mod Accepts
pub mod Exchange
pub mod Total
mod Tests
use mvp_vpn_lite.Base.{
  ℕ, List, Result, ok, err, ◌>>=◌, ◌>>◌, fail_if, map_err, slice, ltb, ◌==◌, not, length, equal,
}
use mvp_vpn_lite.Net.{Ip, ip_equal}
use mvp_vpn_lite.Packet.Errors.{PacketError}
use mvp_vpn_lite.Packet.Checksum.{checksum}
use mvp_vpn_lite.Packet.Icmp.{icmp_type_echo_reply, parse_icmp_packet}
use mvp_vpn_lite.Packet.Ipv4.{parse_ipv4_packet}

pub data ReplyError : Type 0 where
  reply_too_short : ReplyError
  invalid_ipv4_checksum : ℕ → ReplyError
  parse_failed : PacketError → ReplyError
  source_mismatch : ReplyError
  destination_mismatch : ReplyError
  invalid_icmp_checksum : ℕ → ReplyError
  unexpected_type : ℕ → ReplyError
  unexpected_code : ℕ → ReplyError
  unexpected_identifier : ℕ → ReplyError
  unexpected_sequence : ℕ → ReplyError
  unexpected_payload : List ℕ → ReplyError

pub validate_echo_reply : List ℕ → Ip → Ip → ℕ → ℕ → List ℕ → Result ReplyError (Unit {0})
validate_echo_reply reply virtual_ip client_ip identifier sequence payload = do
  fail_if (ltb (length reply) 20) reply_too_short
  header ← slice reply 0 20
  let got = checksum header
  fail_if (not (got == 0)) (invalid_ipv4_checksum got)
  ip_packet ← map_err parse_failed (parse_ipv4_packet reply)
  fail_if (not (ip_equal ip_packet.source_ip virtual_ip)) source_mismatch
  fail_if (not (ip_equal ip_packet.destination_ip client_ip)) destination_mismatch
  let got = checksum ip_packet.payload
  fail_if (not (got == 0)) (invalid_icmp_checksum got)
  icmp_packet ← map_err parse_failed (parse_icmp_packet ip_packet.payload)
  fail_if (not (icmp_packet.type == icmp_type_echo_reply)) (unexpected_type icmp_packet.type)
  fail_if (not (icmp_packet.code == 0)) (unexpected_code icmp_packet.code)
  fail_if (not (icmp_packet.identifier == identifier))
      (unexpected_identifier icmp_packet.identifier)
  fail_if (not (icmp_packet.sequence == sequence)) (unexpected_sequence icmp_packet.sequence)
  fail_if (not (equal icmp_packet.payload payload)) (unexpected_payload icmp_packet.payload)
  ok tt
