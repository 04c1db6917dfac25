-- ===== src/Client/Pump.antt =====
-- internal/quictransport/client.go: sendTUNPackets, the client's loop from the TUN device to the
-- paths. Between its reads a path is reconnected, or its receiving loop ends.
pub mod Keeps
mod Tests
use mvp_vpn_lite.Base.{ℕ, ◌+◌, Option, none, some, List, length}
use mvp_vpn_lite.Io.{Write}
use mvp_vpn_lite.Policy.{PacketPolicy}
use mvp_vpn_lite.Stats.{add_drop, add_error}
use mvp_vpn_lite.Client.Path.{ClientPath}
use mvp_vpn_lite.Client.PathSet.{ClientPathSet, add, remove}
use mvp_vpn_lite.Client.Send.{ClientShared, send_packet}
use mvp_vpn_lite.Loop.{Outcome, Run, returned, crashed, unfinished}
use mvp_vpn_lite.Device.Reads.{Event, LoopState, Pump, device_loop}

pub data PathEvent : Type 0 where
  reconnected : ClientPath → PathEvent
  receiver_ended : ℕ → PathEvent

module _ {W : Type 0} (write : ℕ → Write W) (close : ClientPath → W → W) (clock : ℕ → ℕ) where
  -- `if old, replaced := pathSet.add(path); replaced { closeClientPath(old) }`, and the same after
  -- `pathSet.remove`.
  pub close_if : ClientShared W → Option ClientPath × ClientPathSet → ClientShared W
  close_if s (none, set) = record s { path_set = set }
  close_if s (some old, set) = record s { path_set = set; streams = close old s.streams }

  pub change_path_set : PathEvent → ClientShared W → ClientShared W
  change_path_set (reconnected path) s = close_if s (add s.path_set path)
  change_path_set (receiver_ended stream) s = close_if s (remove s.path_set stream)

  unfoldable pub when_returned : Run (ClientShared W) → Option (ClientShared W)
  when_returned (returned s) = some s
  when_returned crashed = none
  when_returned unfinished = none

  -- The sending of a packet tries each path once and then finds that none is left.
  abbrev pub send_pump : Pump (ClientShared W) PathEvent
  send_pump = record {
    add_error = λ s. record s { counters = add_error s.counters };
    add_drop = λ s. record s { counters = add_drop s.counters };
    deliver = λ s packet.
        when_returned (send_packet write close clock (length s.path_set.paths + 1) packet s);
    change = change_path_set;
  }

  abbrev pub send_tun_packets :
      PacketPolicy
      → List (Event PathEvent)
      → LoopState (ClientShared W)
      → Outcome (LoopState (ClientShared W))
  send_tun_packets policy events st = device_loop send_pump policy events st
