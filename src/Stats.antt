-- ===== src/Stats.antt =====
-- internal/stats/stats.go: the counters. An atomic.Uint64 wraps at 2^64.
pub mod Flow
pub mod Snapshot
pub mod Render
mod Tests
use mvp_vpn_lite.Base.{ℕ, ◌+◌, ◌%◌, ◌^◌, Bool, ltb, if◌then◌else◌}
use mvp_vpn_lite.Base.Int.{ℤ, pos, negsuc, ltb_ℤ, pos_part}

pub record Counters : Type 0 where
  pub rx_packets : ℕ
  pub rx_bytes : ℕ
  pub tx_packets : ℕ
  pub tx_bytes : ℕ
  pub dropped_packets : ℕ
  pub errors : ℕ

-- The zero value.
abbrev pub no_counts : Counters
no_counts = record {
  rx_packets = 0;
  rx_bytes = 0;
  tx_packets = 0;
  tx_bytes = 0;
  dropped_packets = 0;
  errors = 0;
}

-- `counter.Add(n)`
abbrev pub add_u64 : ℕ → ℕ → ℕ
add_u64 a n = (a + n) % 2 ^ 64

-- `addPacket`: the packet and byte counters after one packet. Its size is a Go int.
abbrev pub add_packet : ℕ → ℕ → ℤ → ℕ × ℕ
add_packet packets bytes packet_bytes = (
  add_u64 packets 1,
  if ltb_ℤ (pos 0) packet_bytes then add_u64 bytes (pos_part packet_bytes) else bytes,
)

unfoldable pub add_rx : Counters → ℤ → Counters
add_rx c packet_bytes =
    let (packets, bytes) = add_packet c.rx_packets c.rx_bytes packet_bytes in
    record c { rx_packets = packets; rx_bytes = bytes }

unfoldable pub add_tx : Counters → ℤ → Counters
add_tx c packet_bytes =
    let (packets, bytes) = add_packet c.tx_packets c.tx_bytes packet_bytes in
    record c { tx_packets = packets; tx_bytes = bytes }

unfoldable pub add_drop : Counters → Counters
add_drop c = record c { dropped_packets = add_u64 c.dropped_packets 1 }

unfoldable pub add_error : Counters → Counters
add_error c = record c { errors = add_u64 c.errors 1 }
