-- ===== src/Stats/Render/Tests.antt =====
-- Renderings of stats_test.go, and the ticks of LogEvery.
use mvp_vpn_lite.Base.{◌^◌, ◌-◌, ◌≡◌, refl, arith, true, none, some, [], ◌∷◌, ◌++◌}
use mvp_vpn_lite.Base.Int.{pos}
use mvp_vpn_lite.Stats.Snapshot.{Snapshot}
use mvp_vpn_lite.Stats.Render.{
  codes, decimal, format_uint64, sprintf, text_snapshot, json_snapshot, tick, ctx_done, log_every,
  log_ticks,
}
use mvp_vpn_lite.Stats.Render.Reads.{text_labels, json_labels, read_snapshot, snapshot-read}

abbrev sample : Snapshot
sample = record {
  rx_packets = 1;
  rx_bytes = 1500;
  tx_packets = 0;
  tx_bytes = 2 ^ 64 - 1;
  dropped_packets = 3;
  errors = 10;
}

text_sample :
    text_snapshot sample
    ≡ codes "rx=1 packets/1500 bytes tx=0 packets/18446744073709551615 bytes dropped=3 errors=10"
unfolding text_snapshot sprintf format_uint64 decimal
text_sample = refl

json_sample :
    json_snapshot sample
    ≡ codes
        "{\"rx_packets\":1,\"rx_bytes\":1500,\"tx_packets\":0,\"tx_bytes\":18446744073709551615,\"dropped_packets\":3,\"errors\":10}"
unfolding json_snapshot sprintf format_uint64 decimal
json_sample = refl

no_interval : log_every (pos 0) true [] (tick sample ∷ []) ≡ []
unfolding log_every
no_interval = refl

stops_when_done :
    log_every (pos 5) true (none ∷ []) (tick sample ∷ ctx_done ∷ tick sample ∷ [])
    ≡ (codes "stats: " ++ text_snapshot sample) ∷ []
unfolding log_every log_ticks
stops_when_done = refl

snapshot-read_example :
    (read_snapshot text_labels [] (text_snapshot sample) ≡ some sample)
    × (read_snapshot json_labels (codes "}") (json_snapshot sample) ≡ some sample)
snapshot-read_example =
    snapshot-read sample
      (omega arith, (omega arith, (omega arith, (omega arith, (omega arith, (omega arith, tt))))))
