-- ===== src/Server/Demo.antt =====
-- internal/quictransport/server.go: handleQUICStream, the demo responder on one stream. The stream's
-- read side is a byte stream, its write side a parameter.
pub mod Total
pub mod Answers
mod Tests
use mvp_vpn_lite.Base.{
  ℕ, zero, suc, Option, none, some, List, Result, ok, err, panic, length, if◌then◌else◌,
}
use mvp_vpn_lite.Base.Int.{pos}
use mvp_vpn_lite.Loop.{Run, returned, crashed, unfinished}
use mvp_vpn_lite.Net.{Ip}
use mvp_vpn_lite.Io.{Reader, Write}
use mvp_vpn_lite.Packet.Errors.{PacketError}
use mvp_vpn_lite.Packet.Echo.{build_icmp_echo_reply}
use mvp_vpn_lite.Framing.{FrameError, read_frame, write_frame}
use mvp_vpn_lite.Stats.{Counters, add_rx, add_tx, add_drop, add_error}
use mvp_vpn_lite.Device.{is_graceful_stream_end}

pub record StreamState (W : Type 0) : Type 0 where
  pub reader : Reader
  pub writer : W
  pub counters : Counters

module _ {W : Type 0} (write : Write W) (virtual_ip client_ip : Ip) where
  -- After `WriteFrame`.
  pub after_write :
      (StreamState W → Run (StreamState W))
      → StreamState W
      → List ℕ
      → Option FrameError × W
      → Run (StreamState W)
  after_write again st reply (some e, w) =
      returned (record st { writer = w; counters = add_error st.counters })
  after_write again st reply (none, w) =
      again (record st { writer = w; counters = add_tx st.counters (pos (length reply)) })

  -- After `BuildICMPEchoReply`.
  pub after_build :
      (StreamState W → Run (StreamState W))
      → StreamState W
      → Result PacketError (List ℕ)
      → Run (StreamState W)
  after_build again st (ok reply) = after_write again st reply (write_frame write st.writer reply)
  after_build again st (err e) = again (record st { counters = add_drop st.counters })
  after_build again st panic = crashed

  -- After `ReadFrame`.
  pub after_read :
      (StreamState W → Run (StreamState W))
      → StreamState W
      → Result FrameError (List ℕ) × Reader
      → Run (StreamState W)
  after_read again st (ok raw_packet, r) =
      after_build again
        (record st { reader = r; counters = add_rx st.counters (pos (length raw_packet)) })
        (build_icmp_echo_reply raw_packet virtual_ip client_ip)
  after_read again st (err e, r) = returned (record st {
    reader = r;
    counters = if is_graceful_stream_end e then st.counters else add_error st.counters;
  })
  after_read again st (panic, r) = crashed

  pub handle_quic_stream : ℕ → StreamState W → Run (StreamState W)
  handle_quic_stream zero st = unfinished
  handle_quic_stream (suc fuel) st = after_read (handle_quic_stream fuel) st (read_frame st.reader)
