-- ===== src/Server/Forward/Tests.antt =====
-- The loop from the device to the paths at concrete events.
use mvp_vpn_lite.Base.{
  ℕ, ◌+◌, ◌%◌, ◌^◌, ◌≡◌, refl, none, some, List, [], ◌∷◌, ◌++◌, replicate, ◌==◌, if◌then◌else◌,
}
use mvp_vpn_lite.Io.{not_pollable, other_error, Write}
use mvp_vpn_lite.Framing.{write_frame}
use mvp_vpn_lite.Policy.{PacketPolicy, allow}
use mvp_vpn_lite.Stats.{no_counts, add_tx, add_drop, add_error}
use mvp_vpn_lite.Stats.Flow.{handled}
use mvp_vpn_lite.Server.Session.{add_path, take_path, remove_path}
use mvp_vpn_lite.Loop.{waiting, gave_up}
use mvp_vpn_lite.Device.Reads.{
  Event, read, other, packet, LoopState, device_loop, after_device_read, after_policy,
  after_deliver,
}
use mvp_vpn_lite.Device.Reads.Keeps.{packets}
use mvp_vpn_lite.Device.Reads.Retries.{transient, with_errors, retried, loop_gives_up}
use mvp_vpn_lite.Device.Reads.Denied.{permitted, Same}
use mvp_vpn_lite.Server.Forward.{
  Shared, PathChange, joins, leaves, forward_pump, forward_device_packets, change_paths,
  after_write, write_next_path,
}
use mvp_vpn_lite.Server.Forward.Keeps.{forward-handled}
use mvp_vpn_lite.Server.Forward.Denied.{SamePaths, forward-permitted}

-- One log for all streams; the stream 11 is broken.
abbrev log_write : ℕ → Write (List ℕ)
log_write stream w bytes = if stream == 11 then (some (other_error 1), w) else (none, w ++ bytes)

abbrev local_only : PacketPolicy
local_only = record {
  allowed_cidr = some (record { ip = 10 ∷ 8 ∷ 0 ∷ 0 ∷ []; mask = 255 ∷ 255 ∷ 255 ∷ 0 ∷ [] });
}

abbrev start : LoopState (Shared (List ℕ))
start = record {
  shared = record {
    session = record { paths = []; next_path = 0 };
    streams = [];
    counters = no_counts;
  };
  retryable_read_errors = 0;
}

abbrev events : List (Event PathChange)
events =
    other (joins 0 10)
    ∷ other (joins 1 11)
    ∷ read (packet (1 ∷ 2 ∷ []))
    ∷ transient
    ∷ read (packet [])
    ∷ read (packet (3 ∷ []))
    ∷ other (leaves 10)
    ∷ []

forward-permitted_example :
    Same SamePaths
      (forward_device_packets log_write local_only events start)
      (forward_device_packets log_write local_only (permitted local_only events) start)
forward-permitted_example = forward-permitted log_write local_only events start.shared 0

loop_gives_up_example :
    device_loop
      (forward_pump log_write)
      local_only
      (replicate 100 transient ++ transient ∷ events)
      start
    ≡ gave_up not_pollable (
        with_errors
          (forward_pump log_write)
          local_only
          1
          (retried (forward_pump log_write) local_only 100 start))
loop_gives_up_example = loop_gives_up (forward_pump log_write) local_only 100 events start refl

abbrev open_policy : PacketPolicy
open_policy = record { allowed_cidr = none }

abbrev end : LoopState (Shared (List ℕ))
end = record start {
  shared = record {
    session = record { paths = record { id = 0; stream = 10 } ∷ []; next_path = 0 };
    streams = 0 ∷ 0 ∷ 0 ∷ 2 ∷ 1 ∷ 2 ∷ [];
    counters = record no_counts { tx_packets = 1; tx_bytes = 2; dropped_packets = 1; errors = 1 };
  };
}

-- A packet that is sent, one whose path fails, and an empty read.
abbrev sends : List (Event PathChange)
sends =
    other (joins 0 10)
    ∷ other (joins 1 11)
    ∷ read (packet (1 ∷ 2 ∷ []))
    ∷ read (packet [])
    ∷ read (packet (3 ∷ []))
    ∷ []

sends_end : forward_device_packets log_write open_policy sends start ≡ waiting end
unfolding device_loop change_paths after_device_read after_policy after_deliver allow after_write
    write_next_path take_path add_path write_frame remove_path add_drop add_error add_tx
sends_end = refl

forward-handled_example : handled end.shared.counters ≡ (handled no_counts + packets sends) % 2 ^ 64
forward-handled_example = forward-handled log_write open_policy sends start end sends_end
