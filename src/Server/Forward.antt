-- ===== src/Server/Forward.antt =====
-- internal/quictransport/server.go: writeNextPath and forwardDevicePackets, the loop from the TUN
-- device to the paths. Paths join and leave between its reads.
pub mod Keeps
pub mod Denied
mod Tests
use mvp_vpn_lite.Base.{ℕ, Option, none, some, List, [], ◌∷◌, Result, ok, err, panic, length}
use mvp_vpn_lite.Base.Int.{pos}
use mvp_vpn_lite.Io.{Write}
use mvp_vpn_lite.Framing.{FrameError, write_frame}
use mvp_vpn_lite.Policy.{PacketPolicy}
use mvp_vpn_lite.Stats.{Counters, add_tx, add_drop, add_error}
use mvp_vpn_lite.Loop.{Outcome}
use mvp_vpn_lite.Device.Reads.{Event, LoopState, Pump, device_loop}
use mvp_vpn_lite.Server.Session.{ServerPath, ServerTunSession, add_path, take_path, remove_path}

-- What the session's goroutines share, with the streams that the paths write to.
pub record Shared (W : Type 0) : Type 0 where
  pub session : ServerTunSession
  pub streams : W
  pub counters : Counters

pub data PathError : Type 0 where
  no_active_paths : PathError
  path_write : ℕ → FrameError → PathError

-- What the goroutine of a connection does.
pub data PathChange : Type 0 where
  joins : ℕ → ℕ → PathChange
  leaves : ℕ → PathChange

module _ {W : Type 0} (write : ℕ → Write W) where
  -- `WriteFrame(path.stream, packet)` and what follows.
  unfoldable pub after_write_frame :
      Shared W → ServerPath → Option FrameError × W → Result PathError (Unit {0}) × Shared W
  after_write_frame s path (none, w) = (ok tt, record s { streams = w })
  after_write_frame s path (some e, w) = (
    err (path_write path.id e),
    record {
      session = remove_path s.session path.stream;
      streams = w;
      counters = add_error s.counters;
    },
  )

  unfoldable pub write_on :
      Shared W
      → List ℕ
      → Result (Unit {0}) ServerPath × ServerTunSession
      → Result PathError (Unit {0}) × Shared W
  unfolding after_write_frame
  write_on s bytes (err _, session) = (err no_active_paths, record s { session = session })
  write_on s bytes (panic, session) = (panic, record s { session = session })
  write_on s bytes (ok path, session) =
      after_write_frame (record s { session = session }) path
        (write_frame (write path.stream) s.streams bytes)

  unfoldable pub write_next_path : Shared W → List ℕ → Result PathError (Unit {0}) × Shared W
  unfolding write_on
  write_next_path s bytes = write_on s bytes (take_path s.session)

  -- After `writeNextPath`.
  unfoldable pub after_write : List ℕ → Result PathError (Unit {0}) × Shared W → Option (Shared W)
  after_write bytes (ok _, s) =
      some (record s { counters = add_tx s.counters (pos (length bytes)) })
  after_write bytes (err _, s) = some (record s { counters = add_drop s.counters })
  after_write bytes (panic, s) = none

  pub change_paths : PathChange → Shared W → Shared W
  change_paths (joins path_id stream) s = record s { session = add_path s.session path_id stream }
  change_paths (leaves stream) s = record s { session = remove_path s.session stream }

  abbrev pub forward_pump : Pump (Shared W) PathChange
  forward_pump = record {
    add_error = λ s. record s { counters = add_error s.counters };
    add_drop = λ s. record s { counters = add_drop s.counters };
    deliver = λ s bytes. after_write bytes (write_next_path s bytes);
    change = change_paths;
  }

  abbrev pub forward_device_packets :
      PacketPolicy → List (Event PathChange) → LoopState (Shared W) → Outcome (LoopState (Shared W))
  forward_device_packets policy events st = device_loop forward_pump policy events st
