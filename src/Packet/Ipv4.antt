-- ===== src/Packet/Ipv4.antt =====
-- internal/packet/ipv4.go: the parser.
pub mod Parse
mod Tests
use mvp_vpn_lite.Base.{
  ℕ, ◌*◌, ◌/◌, ◌^◌, List, Result, ok, ◌>>=◌, ◌>>◌, fail_if, index, slice, ltb, ◌==◌, not, length,
  bit_and,
}
use mvp_vpn_lite.Net.{Ip}
use mvp_vpn_lite.Packet.Errors.{
  PacketError, packet_too_short, unsupported_version, invalid_header_length, shorter_than_header,
  invalid_total_length, shorter_than_total, unsupported_protocol,
}
use mvp_vpn_lite.Packet.Endian.{uint16}

abbrev pub ipv4_protocol_icmp : ℕ
ipv4_protocol_icmp = 1

abbrev pub ipv4_min_header_len : ℕ
ipv4_min_header_len = 20

abbrev pub ipv4_default_ttl : ℕ
ipv4_default_ttl = 64

pub record Ipv4Packet : Type 0 where
  pub version : ℕ
  pub ihl : ℕ
  pub total_length : ℕ
  pub protocol : ℕ
  pub source_ip : Ip
  pub destination_ip : Ip
  pub payload : List ℕ

unfoldable pub parse_ipv4_packet : List ℕ → Result PacketError Ipv4Packet
parse_ipv4_packet bytes = do
  fail_if (ltb (length bytes) ipv4_min_header_len) packet_too_short
  first ← index bytes 0
  let version = first / 2 ^ 4
  fail_if (not (version == 4)) (unsupported_version version)
  let header_len = bit_and first 0x0f * 4
  fail_if (ltb header_len ipv4_min_header_len) (invalid_header_length header_len)
  fail_if (ltb (length bytes) header_len) shorter_than_header
  total_len ← slice bytes 2 4 >>= uint16
  fail_if (ltb total_len header_len) (invalid_total_length total_len)
  fail_if (ltb (length bytes) total_len) shorter_than_total
  protocol ← index bytes 9
  fail_if (not (protocol == ipv4_protocol_icmp)) (unsupported_protocol protocol)
  source_ip ← slice bytes 12 16
  destination_ip ← slice bytes 16 20
  payload ← slice bytes header_len total_len
  ok (record {
    version = version;
    ihl = header_len;
    total_length = total_len;
    protocol = protocol;
    source_ip = source_ip;
    destination_ip = destination_ip;
    payload = payload;
  })
