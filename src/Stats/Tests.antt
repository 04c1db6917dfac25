-- ===== src/Stats/Tests.antt =====
-- The counters' theorems on a few calls.
use mvp_vpn_lite.Base.{◌+◌, ◌-◌, ◌%◌, ◌^◌, ◌≡◌, arith, List, [], ◌∷◌}
use mvp_vpn_lite.Base.Int.{pos, negsuc}
use mvp_vpn_lite.Stats.{Counters, no_counts}
use mvp_vpn_lite.Stats.Snapshot.{Between, snapshot, Grows, counters_of, snapshot_between}
use mvp_vpn_lite.Stats.Flow.{
  Call, rx, tx, drop, error, calls, total, rx_packets_of, rx_bytes_of, tx_packets_of, tx_bytes_of,
  drops_of, errors_of, calls-total,
}

-- One packet before the counter of received packets wraps.
abbrev start : Counters
start = record {
  rx_packets = 2 ^ 64 - 1;
  rx_bytes = 0;
  tx_packets = 0;
  tx_bytes = 0;
  dropped_packets = 0;
  errors = 0;
}

abbrev script : List Call
script = rx (pos 100) ∷ drop ∷ rx (negsuc 0) ∷ []

script_counts : calls start script ≡ record {
  rx_packets = (start.rx_packets + total rx_packets_of script) % 2 ^ 64;
  rx_bytes = (start.rx_bytes + total rx_bytes_of script) % 2 ^ 64;
  tx_packets = (start.tx_packets + total tx_packets_of script) % 2 ^ 64;
  tx_bytes = (start.tx_bytes + total tx_bytes_of script) % 2 ^ 64;
  dropped_packets = (start.dropped_packets + total drops_of script) % 2 ^ 64;
  errors = (start.errors + total errors_of script) % 2 ^ 64;
}
script_counts = calls-total script start (omega arith)

abbrev between : Between
between = record {
  calls1 = rx (pos 60) ∷ [];
  calls2 = drop ∷ [];
  calls3 = [];
  calls4 = tx (pos 40) ∷ error ∷ [];
  calls5 = [];
}

snapshot_between_example :
    let (s, end) = snapshot no_counts between in
    Grows no_counts (counters_of s) × Grows (counters_of s) end
snapshot_between_example = snapshot_between no_counts between (omega arith)

abbrev one_packet : Between
one_packet = record {
  calls1 = rx (pos (59 + 1)) ∷ [];
  calls2 = [];
  calls3 = [];
  calls4 = [];
  calls5 = [];
}
