-- ===== src/Packet.antt =====
-- internal/packet.
pub mod Errors
pub mod Endian
pub mod Checksum
pub mod Icmp
pub mod Ipv4
pub mod Echo
