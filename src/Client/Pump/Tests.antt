-- ===== src/Client/Pump/Tests.antt =====
-- The client's loop from the device at concrete events: a broken path, a working one, and a path that
-- comes back.
use mvp_vpn_lite.Base.{ℕ, arith, none, some, List, [], ◌∷◌, ◌++◌, ◌==◌, if◌then◌else◌, false, true}
use mvp_vpn_lite.Io.{not_pollable, other_error, Write}
use mvp_vpn_lite.Policy.{PacketPolicy}
use mvp_vpn_lite.Stats.Flow.{handled}
use mvp_vpn_lite.Client.Path.{ClientPath}
use mvp_vpn_lite.Client.Send.{ClientShared}
use mvp_vpn_lite.Device.Reads.{Event, read, other, packet, failed, LoopState}
use mvp_vpn_lite.Device.Reads.Keeps.{packets, Ends}
use mvp_vpn_lite.Client.Pump.{PathEvent, reconnected, receiver_ended, send_pump, send_tun_packets}
use mvp_vpn_lite.Stats.{no_counts}
use mvp_vpn_lite.Client.Pump.Keeps.{Sound, Sound-Kept, send_tun_packets-Ends}

-- One log for all streams; the stream 10 is broken.
abbrev log_write : ℕ → Write (List ℕ)
log_write stream w bytes = if stream == 10 then (some (other_error 1), w) else (none, w ++ bytes)

abbrev log_close : ClientPath → List ℕ → List ℕ
log_close path w = w ++ (path.stream ∷ [])

abbrev path0 : ClientPath
path0 = record { id = 0; address = "a:1"; conn = 20; stream = 10 }

abbrev path1 : ClientPath
path1 = record { id = 1; address = "b:1"; conn = 21; stream = 11 }

abbrev start : LoopState (ClientShared (List ℕ))
start = record {
  shared = record {
    path_set = record { paths = path0 ∷ path1 ∷ []; next = 0; health = λ id. none };
    streams = [];
    counters = no_counts;
    clock_reads = 0;
  };
  retryable_read_errors = 0;
}

abbrev open_policy : PacketPolicy
open_policy = record { allowed_cidr = none }

abbrev events : List (Event PathEvent)
events =
    read (packet (1 ∷ 2 ∷ []))
    ∷ read (failed not_pollable false true)
    ∷ other (reconnected path0)
    ∷ read (packet (3 ∷ []))
    ∷ other (receiver_ended 11)
    ∷ []

send_tun_packets-Ends_example :
    Ends
      (send_pump log_write log_close (λ n. n))
      (Sound (handled start.shared.counters))
      (Sound-Kept log_write log_close (λ n. n) (handled start.shared.counters))
      (packets events)
      (send_tun_packets log_write log_close (λ n. n) open_policy events start)
send_tun_packets-Ends_example =
    send_tun_packets-Ends log_write log_close (λ n. n) open_policy events start
      (record { in_range = omega arith; distinct = ((omega arith, tt), (tt, tt)) })
