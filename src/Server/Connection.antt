-- ===== src/Server/Connection.antt =====
-- internal/quictransport/server.go: the loop of handleTUNQUICConnection over the frames of one stream,
-- between its addPath and its removePath. `device.Write` under deviceWriteMu is a parameter.
pub mod Total
pub mod Delivers
mod Tests
use mvp_vpn_lite.Base.{
  ℕ, zero, suc, Bool, true, false, ◌||◌, Option, none, some, List, [], ◌∷◌, Result, ok, err, panic,
  length, if◌then◌else◌,
}
use mvp_vpn_lite.Base.Int.{pos}
use mvp_vpn_lite.Io.{IoError, Reader, Write}
use mvp_vpn_lite.Framing.{FrameError, read_frame}
use mvp_vpn_lite.Policy.{PacketPolicy, allow}
use mvp_vpn_lite.Stats.{Counters, add_rx, add_drop, add_error}
use mvp_vpn_lite.Device.{is_closed, is_graceful_stream_end}
use mvp_vpn_lite.Server.Session.{ServerTunSession, add_path, remove_path}
use mvp_vpn_lite.Loop.{Run, returned, crashed, unfinished}

pub record ConnectionState (D : Type 0) : Type 0 where
  pub reader : Reader
  pub device : D
  pub counters : Counters

-- `ctx_done` says whether `ctx.Err() != nil` where the loop looks at it.
module _ {D : Type 0} (write_device : Write D) (policy : PacketPolicy) (ctx_done : Bool) where
  -- After `session.writeDevice`.
  pub after_device_write :
      (ConnectionState D → Run (ConnectionState D))
      → ConnectionState D
      → List ℕ
      → Option IoError × D
      → Run (ConnectionState D)
  after_device_write again st raw_packet (some e, d) = returned (record st {
    device = d;
    counters = if ctx_done || is_closed e then st.counters else add_error st.counters;
  })
  after_device_write again st raw_packet (none, d) =
      again (record st { device = d; counters = add_rx st.counters (pos (length raw_packet)) })

  -- After `session.policy.allow`.
  pub after_policy :
      (ConnectionState D → Run (ConnectionState D))
      → ConnectionState D
      → List ℕ
      → Bool
      → Run (ConnectionState D)
  after_policy again st raw_packet true =
      after_device_write again st raw_packet (write_device st.device raw_packet)
  after_policy again st raw_packet false = again (record st { counters = add_drop st.counters })

  -- After `ReadFrame`.
  pub after_read :
      (ConnectionState D → Run (ConnectionState D))
      → ConnectionState D
      → Result FrameError (List ℕ) × Reader
      → Run (ConnectionState D)
  after_read again st (ok raw_packet, r) =
      after_policy again (record st { reader = r }) raw_packet (allow policy raw_packet)
  after_read again st (err e, r) = returned (record st {
    reader = r;
    counters = if ctx_done || is_graceful_stream_end e then st.counters else add_error st.counters;
  })
  after_read again st (panic, r) = crashed

  pub receive_frames : ℕ → ConnectionState D → Run (ConnectionState D)
  receive_frames zero st = unfinished
  receive_frames (suc fuel) st = after_read (receive_frames fuel) st (read_frame st.reader)
