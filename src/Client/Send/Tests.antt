-- ===== src/Client/Send/Tests.antt =====
-- The sending of a packet over a broken path and a working one.
use mvp_vpn_lite.Base.{ℕ, ◌≡◌, arith, none, some, List, [], ◌∷◌, ◌++◌, ◌==◌, if◌then◌else◌}
use mvp_vpn_lite.Io.{other_error, Write}
use mvp_vpn_lite.Client.Path.{ClientPath}
use mvp_vpn_lite.Client.PathSet.Invariant.{IsValid}
use mvp_vpn_lite.Loop.{returned}
use mvp_vpn_lite.Client.Send.{ClientShared, send_packet}
use mvp_vpn_lite.Stats.{no_counts}
use mvp_vpn_lite.Client.Send.Total.{Handled, send_packet_total}

-- One log for all streams; the stream 10 is broken.
abbrev log_write : ℕ → Write (List ℕ)
log_write stream w bytes = if stream == 10 then (some (other_error 1), w) else (none, w ++ bytes)

abbrev paths : List ClientPath
paths =
    record { id = 0; address = "a:1"; conn = 20; stream = 10 }
    ∷ record { id = 1; address = "b:1"; conn = 21; stream = 11 }
    ∷ []

abbrev start : ClientShared (List ℕ)
start = record {
  path_set = record { paths = paths; next = 0; health = λ id. none };
  streams = [];
  counters = no_counts;
  clock_reads = 0;
}

start-IsValid : IsValid start.path_set
start-IsValid = record { in_range = omega arith; distinct = ((omega arith, tt), (tt, tt)) }

send_packet_total_example :
    (end : ClientShared (List ℕ)) × (send_packet log_write
        (λ stream w. w)
        (λ n. n)
        3
        (1 ∷ 2 ∷ [])
        start
      ≡ returned end)
    × Handled start.counters end
send_packet_total_example =
    send_packet_total log_write (λ stream w. w) (λ n. n) (1 ∷ 2 ∷ []) 3 start start-IsValid
      (omega arith)
