-- ===== src/Packet/Icmp.antt =====
-- internal/packet/icmp.go.
pub mod Parse
use mvp_vpn_lite.Base.{ℕ, List, Result, ok, ◌>>=◌, ◌>>◌, fail_if, index, slice, ltb, length}
use mvp_vpn_lite.Packet.Errors.{PacketError, icmp_too_short}
use mvp_vpn_lite.Packet.Endian.{uint16}

abbrev pub icmp_type_echo_reply : ℕ
icmp_type_echo_reply = 0

abbrev pub icmp_type_echo_request : ℕ
icmp_type_echo_request = 8

pub record IcmpPacket : Type 0 where
  pub type : ℕ
  pub code : ℕ
  pub checksum : ℕ
  pub identifier : ℕ
  pub sequence : ℕ
  pub payload : List ℕ

unfoldable pub parse_icmp_packet : List ℕ → Result PacketError IcmpPacket
parse_icmp_packet bytes = do
  fail_if (ltb (length bytes) 8) icmp_too_short
  type ← index bytes 0
  code ← index bytes 1
  checksum ← slice bytes 2 4 >>= uint16
  identifier ← slice bytes 4 6 >>= uint16
  sequence ← slice bytes 6 8 >>= uint16
  payload ← slice bytes 8 (length bytes)
  ok (record {
    type = type;
    code = code;
    checksum = checksum;
    identifier = identifier;
    sequence = sequence;
    payload = payload;
  })
