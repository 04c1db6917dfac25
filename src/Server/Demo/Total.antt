-- ===== src/Server/Demo/Total.antt =====
-- handleQUICStream ends, whatever the client sends.
use mvp_vpn_lite.Base.{
  ℕ, zero, suc, ◌<◌, ◌≡◌, ◌≢◌, refl, arith, Option, none, some, List, Result, ok, err, panic,
  length,
}
use mvp_vpn_lite.Net.{Ip}
use mvp_vpn_lite.Io.{Reader, Write}
use mvp_vpn_lite.Packet.Errors.{PacketError}
use mvp_vpn_lite.Packet.Echo.{build_icmp_echo_reply}
use mvp_vpn_lite.Packet.Echo.Total.{build_reply-ne-panic}
use mvp_vpn_lite.Framing.{FrameError, read_frame, write_frame}
use mvp_vpn_lite.Framing.Progress.{read_frame_takes, read_frame-ne-panic}
use mvp_vpn_lite.Loop.{Run, returned}
use mvp_vpn_lite.Server.Demo.{StreamState, after_write, after_build, after_read, handle_quic_stream}

Returns : {S : Type 0} → Run S → Type 0
Returns {S} run = (s : S) × (run ≡ returned s)

module _ {W : Type 0} (write : Write W) (virtual_ip client_ip : Ip) where
  after_write-Returns :
      (again : StreamState W → Run (StreamState W)) (st : StreamState W) (reply : List ℕ)
      (result : Option FrameError × W)
      → ((next : StreamState W) → next.reader ≡ st.reader → Returns (again next))
      → Returns (after_write write virtual_ip client_ip again st reply result)
  unfolding Returns after_write
  after_write-Returns again st reply (some e, w) h = (_, refl)
  after_write-Returns again st reply (none, w) h = h _ refl

  after_build-Returns :
      (again : StreamState W → Run (StreamState W)) (st : StreamState W)
      (result : Result PacketError (List ℕ))
      → result ≢ panic
      → ((next : StreamState W) → next.reader ≡ st.reader → Returns (again next))
      → Returns (after_build write virtual_ip client_ip again st result)
  unfolding Returns after_build
  after_build-Returns again st (ok reply) ne h =
      after_write-Returns again st reply (write_frame write st.writer reply) h
  after_build-Returns again st (err e) ne h = h _ refl
  after_build-Returns again st panic ne h = absurd (ne refl)

  after_read-Returns :
      (again : StreamState W → Run (StreamState W)) (st : StreamState W)
      (result : Result FrameError (List ℕ) × Reader)
      → result.0 ≢ panic
      → ((payload : List ℕ) (next : StreamState W)
          → result ≡ (ok payload, next.reader)
          → Returns (again next))
      → Returns (after_read write virtual_ip client_ip again st result)
  unfolding Returns after_read
  after_read-Returns again st (ok raw_packet, r) ne h =
      after_build-Returns again _ (build_icmp_echo_reply raw_packet virtual_ip client_ip)
        (build_reply-ne-panic raw_packet virtual_ip client_ip)
        λ next same. h raw_packet next (cc same)
  after_read-Returns again st (err e, r) ne h = (_, refl)
  after_read-Returns again st (panic, r) ne h = absurd (ne refl)

  -- The responder on a stream returns, whatever bytes the client sends and whatever the writer does: it
  -- does not panic, and one more turn than there are bytes is enough.
  pub handle_total :
      (fuel : ℕ) (st : StreamState W)
      → length st.reader.pending < fuel
      → (end : StreamState W) × (handle_quic_stream write virtual_ip client_ip fuel st
          ≡ returned end)
  unfolding Returns handle_quic_stream
  handle_total zero st lt = absurd (omega arith)
  handle_total (suc fuel) st lt =
      after_read-Returns (handle_quic_stream write virtual_ip client_ip fuel) st
        (read_frame st.reader) (read_frame-ne-panic st.reader)
        λ payload next e.
          let shorter = read_frame_takes st.reader next.reader payload e in
          handle_total fuel next (omega arith)
