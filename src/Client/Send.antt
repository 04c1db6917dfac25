-- ===== src/Client/Send.antt =====
-- internal/quictransport/client.go: the loop of sendTUNPackets that sends one packet, path after path.
-- The writers of the streams, closeClientPath and the clock (its n-th reading) are parameters.
pub mod Total
mod Tests
use mvp_vpn_lite.Base.{ℕ, zero, suc, ◌+◌, Option, none, some, List, Result, ok, err, panic, length}
use mvp_vpn_lite.Base.Int.{pos}
use mvp_vpn_lite.Io.{Write}
use mvp_vpn_lite.Framing.{FrameError, write_frame}
use mvp_vpn_lite.Stats.{Counters, add_tx, add_drop, add_error}
use mvp_vpn_lite.Client.Path.{ClientPath}
use mvp_vpn_lite.Client.PathSet.{ClientPathSet, next_path, remove, mark_success, mark_failure}
use mvp_vpn_lite.Loop.{Run, returned, crashed, unfinished}

pub record ClientShared (W : Type 0) : Type 0 where
  pub path_set : ClientPathSet
  pub streams : W
  pub counters : Counters
  pub clock_reads : ℕ

module _ {W : Type 0} (write : ℕ → Write W) (close : ClientPath → W → W) (clock : ℕ → ℕ) where
  -- After `pathSet.remove`.
  unfoldable pub after_remove :
      (ClientShared W → Run (ClientShared W))
      → ClientShared W
      → Option ClientPath × ClientPathSet
      → Run (ClientShared W)
  after_remove again s (none, set) = again (record s { path_set = set })
  after_remove again s (some removed, set) =
      again (record s { path_set = set; streams = close removed s.streams })

  -- After `WriteFrame`.
  unfoldable pub after_frame :
      (ClientShared W → Run (ClientShared W))
      → ClientShared W
      → List ℕ
      → ClientPath
      → Option FrameError × W
      → Run (ClientShared W)
  after_frame again s packet path (none, w) = returned (record s {
    path_set = mark_success s.path_set path.id;
    streams = w;
    counters = add_tx s.counters (pos (length packet));
  })
  after_frame again s packet path (some e, w) =
      let (health, set) = mark_failure s.path_set path.id (clock s.clock_reads) in
      after_remove again
        (record s { streams = w; counters = add_error s.counters; clock_reads = s.clock_reads + 1 })
        (remove set path.stream)

  -- After `pathSet.nextPath`.
  unfoldable pub after_next :
      (ClientShared W → Run (ClientShared W))
      → ClientShared W
      → List ℕ
      → Result (Unit {0}) ClientPath × ClientPathSet
      → Run (ClientShared W)
  after_next again s packet (err _, set) =
      returned (record s { path_set = set; counters = add_drop s.counters })
  after_next again s packet (panic, set) = crashed
  after_next again s packet (ok path, set) =
      after_frame again (record s { path_set = set; clock_reads = s.clock_reads + 1 }) packet path
        (write_frame (write path.stream) s.streams packet)

  unfoldable pub send_packet : ℕ → List ℕ → ClientShared W → Run (ClientShared W)
  send_packet zero packet s = unfinished
  send_packet (suc fuel) packet s =
      after_next (send_packet fuel packet) s packet (next_path s.path_set (clock s.clock_reads))
