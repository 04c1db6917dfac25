-- ===== src/Client/Receive/Tests.antt =====
-- The receiving loop at a concrete stream.
use mvp_vpn_lite.Base.{ℕ, ◌≡◌, arith, false, none, List, [], ◌∷◌, ◌++◌}
use mvp_vpn_lite.Io.{eof, Write}
use mvp_vpn_lite.Loop.{returned}
use mvp_vpn_lite.Policy.{PacketPolicy}
use mvp_vpn_lite.Client.Receive.{ReceiveState, receive_loop}
use mvp_vpn_lite.Stats.{no_counts}
use mvp_vpn_lite.Client.Receive.Total.{receive_loop_total}

-- A device that takes every packet.
abbrev log_write : Write (List ℕ)
log_write d packet = (none, d ++ packet)

abbrev open_policy : PacketPolicy
open_policy = record { allowed_cidr = none }

-- A frame of two bytes, and a frame that is cut short.
abbrev start : ReceiveState (List ℕ)
start = record {
  reader = record { pending = 0 ∷ 0 ∷ 0 ∷ 2 ∷ 7 ∷ 8 ∷ 0 ∷ 0 ∷ []; end = eof };
  device = [];
  counters = no_counts;
  fatal = none;
}

receive_loop_total_example :
    (end : ReceiveState (List ℕ)) × (receive_loop log_write open_policy false 9 start
      ≡ returned end)
receive_loop_total_example = receive_loop_total log_write open_policy false 9 start (omega arith)
