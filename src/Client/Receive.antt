-- ===== src/Client/Receive.antt =====
-- internal/quictransport/client.go: receivePathPackets, from one path to the device. `device.Write`
-- under deviceWriteMu and closeClientPath are parameters.
pub mod Total
pub mod Delivers
mod Tests
use mvp_vpn_lite.Base.{
  ℕ, zero, suc, Bool, true, false, ◌||◌, Option, none, some, List, Result, ok, err, panic, length,
  if◌then◌else◌,
}
use mvp_vpn_lite.Base.Int.{pos}
use mvp_vpn_lite.Io.{IoError, Reader, Write}
use mvp_vpn_lite.Loop.{Run, returned, crashed, unfinished}
use mvp_vpn_lite.Framing.{FrameError, io_error, read_frame}
use mvp_vpn_lite.Policy.{PacketPolicy, allow}
use mvp_vpn_lite.Stats.{Counters, add_rx, add_drop, add_error}
use mvp_vpn_lite.Device.{is_closed, is_graceful_stream_end}
use mvp_vpn_lite.Client.Path.{ClientPath}
use mvp_vpn_lite.Client.PathSet.{ClientPathSet, remove}

-- `fatal` is what the loop has sent on `errCh`.
pub record ReceiveState (D : Type 0) : Type 0 where
  pub reader : Reader
  pub device : D
  pub counters : Counters
  pub fatal : Option IoError

-- `errors.Is(err, os.ErrClosed)` of an error of ReadFrame
pub is_closed_frame : FrameError → Bool
is_closed_frame (io_error e) = is_closed e
is_closed_frame _ = false

-- `ctx_done` says whether `ctx.Err() != nil` where the loop looks at it.
module _ {D : Type 0} (write_device : Write D) (policy : PacketPolicy) (ctx_done : Bool) where
  -- After `device.Write`.
  pub after_packet_write :
      (ReceiveState D → Run (ReceiveState D))
      → ReceiveState D
      → List ℕ
      → Option IoError × D
      → Run (ReceiveState D)
  after_packet_write again st raw_packet (some e, d) =
      if ctx_done || is_closed e
      then returned (record st { device = d })
      else returned (record st { device = d; counters = add_error st.counters; fatal = some e })
  after_packet_write again st raw_packet (none, d) =
      again (record st { device = d; counters = add_rx st.counters (pos (length raw_packet)) })

  -- After `policy.allow`.
  pub after_allow :
      (ReceiveState D → Run (ReceiveState D))
      → ReceiveState D
      → List ℕ
      → Bool
      → Run (ReceiveState D)
  after_allow again st raw_packet true =
      after_packet_write again st raw_packet (write_device st.device raw_packet)
  after_allow again st raw_packet false = again (record st { counters = add_drop st.counters })

  -- After `ReadFrame`.
  pub after_read_frame :
      (ReceiveState D → Run (ReceiveState D))
      → ReceiveState D
      → Result FrameError (List ℕ) × Reader
      → Run (ReceiveState D)
  after_read_frame again st (ok raw_packet, r) =
      after_allow again (record st { reader = r }) raw_packet (allow policy raw_packet)
  after_read_frame again st (err e, r) =
      if ctx_done || is_closed_frame e || is_graceful_stream_end e
      then returned (record st { reader = r })
      else returned (record st { reader = r; counters = add_error st.counters })
  after_read_frame again st (panic, r) = crashed

  pub receive_loop : ℕ → ReceiveState D → Run (ReceiveState D)
  receive_loop zero st = unfinished
  receive_loop (suc fuel) st = after_read_frame (receive_loop fuel) st (read_frame st.reader)

-- The deferred function: the path's stream leaves the set and is closed if it was there.
unfoldable pub stop_receiving :
    {W : Type 0} → (ClientPath → W → W) → ClientPath → ClientPathSet → W → ClientPathSet × W
stop_receiving close path set streams =
    let (removed, set') = remove set path.stream in
    (set', elim removed [ none ↦ streams | some p ↦ close p streams ])
