-- ===== src/Net.antt =====
-- The parts of Go's package net that the sources call.
mod Defs
mod Laws
unfoldable pub use Defs.{
  Ip, v4_in_v6_prefix, to4, ip_equal, ipv4, masked_equal, network_number_and_mask, contains,
}
pub use Defs.{IpNet}
pub use Laws.*
