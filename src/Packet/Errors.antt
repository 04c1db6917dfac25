-- ===== src/Packet/Errors.antt =====
-- The errors of internal/packet, a constructor for each message with the numbers it prints.
use mvp_vpn_lite.Base.{ℕ}

pub data PacketError : Type 0 where
  packet_too_short : PacketError
  unsupported_version : ℕ → PacketError
  invalid_header_length : ℕ → PacketError
  shorter_than_header : PacketError
  invalid_total_length : ℕ → PacketError
  shorter_than_total : PacketError
  unsupported_protocol : ℕ → PacketError
  icmp_too_short : PacketError
  virtual_ip_not_ipv4 : PacketError
  client_ip_not_ipv4 : PacketError
  destination_mismatch : PacketError
  not_echo_request : ℕ → PacketError
  source_not_ipv4 : PacketError
  destination_not_ipv4 : PacketError
  packet_too_large : PacketError
