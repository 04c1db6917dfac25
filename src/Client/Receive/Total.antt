-- ===== src/Client/Receive/Total.antt =====
-- The loop of receivePathPackets ends, whatever the server sends.
use mvp_vpn_lite.Base.{
  ℕ, zero, suc, ◌<◌, ◌≡◌, ◌≢◌, refl, arith, Bool, true, false, ◌||◌, if◌then◌else◌, Option, none,
  some, List, Result, ok, err, panic, length,
}
use mvp_vpn_lite.Io.{IoError, Reader, Write}
use mvp_vpn_lite.Framing.{FrameError, read_frame}
use mvp_vpn_lite.Framing.Progress.{read_frame_takes, read_frame-ne-panic}
use mvp_vpn_lite.Policy.{PacketPolicy, allow}
use mvp_vpn_lite.Loop.{Run, returned}
use mvp_vpn_lite.Device.{is_closed, is_graceful_stream_end}
use mvp_vpn_lite.Client.Receive.{
  ReceiveState, is_closed_frame, after_packet_write, after_allow, after_read_frame, receive_loop,
}

choice-returned :
    {S : Type 0} (b : Bool) (x y : S)
    → (end : S) × ((if b then returned x else returned y) ≡ returned end)
choice-returned true x y = (x, refl)
choice-returned false x y = (y, refl)

module _ {D : Type 0} (write_device : Write D) (policy : PacketPolicy) (ctx_done : Bool) where
  abbrev Ends : Run (ReceiveState D) → Type 0
  Ends run = (end : ReceiveState D) × (run ≡ returned end)

  -- The loop goes on well from any state with this reader.
  abbrev Continues : (ReceiveState D → Run (ReceiveState D)) → Reader → Type 0
  Continues again r = (next : ReceiveState D) → next.reader ≡ r → Ends (again next)

  after_packet_write-Ends :
      (again : ReceiveState D → Run (ReceiveState D)) (st : ReceiveState D) (raw_packet : List ℕ)
      (result : Option IoError × D)
      → Continues again st.reader
      → Ends (after_packet_write write_device policy ctx_done again st raw_packet result)
  unfolding after_packet_write
  after_packet_write-Ends again st raw_packet (some e, d) h =
      choice-returned (ctx_done || is_closed e) _ _
  after_packet_write-Ends again st raw_packet (none, d) h = h _ refl

  after_allow-Ends :
      (again : ReceiveState D → Run (ReceiveState D)) (st : ReceiveState D) (raw_packet : List ℕ)
      (allowed : Bool)
      → Continues again st.reader
      → Ends (after_allow write_device policy ctx_done again st raw_packet allowed)
  unfolding after_allow
  after_allow-Ends again st raw_packet true h =
      after_packet_write-Ends again st raw_packet (write_device st.device raw_packet) h
  after_allow-Ends again st raw_packet false h = h _ refl

  after_read_frame-Ends :
      (again : ReceiveState D → Run (ReceiveState D)) (st : ReceiveState D)
      (result : Result FrameError (List ℕ) × Reader)
      → result.0 ≢ panic
      → ((payload : List ℕ) (r : Reader) → result ≡ (ok payload, r) → Continues again r)
      → Ends (after_read_frame write_device policy ctx_done again st result)
  unfolding after_read_frame
  after_read_frame-Ends again st (ok raw_packet, r) ne h =
      after_allow-Ends again (record st { reader = r }) raw_packet (allow policy raw_packet)
        (h raw_packet r refl)
  after_read_frame-Ends again st (err e, r) ne h =
      choice-returned (ctx_done || is_closed_frame e || is_graceful_stream_end e) _ _
  after_read_frame-Ends again st (panic, r) ne h = absurd (ne refl)

  -- The receiving loop of a client path returns, whatever bytes the server sends and whatever the
  -- device does: it does not panic, and one more turn than there are bytes is enough.
  pub receive_loop_total :
      (fuel : ℕ) (st : ReceiveState D)
      → length st.reader.pending < fuel
      → (end : ReceiveState D) × (receive_loop write_device policy ctx_done fuel st ≡ returned end)
  unfolding receive_loop
  receive_loop_total zero st lt = absurd (omega arith)
  receive_loop_total (suc fuel) st lt =
      after_read_frame-Ends (receive_loop write_device policy ctx_done fuel) st
        (read_frame st.reader) (read_frame-ne-panic st.reader)
        λ payload r e next same.
          let shorter = read_frame_takes st.reader r payload e in
          receive_loop_total fuel next (rw same (omega arith))
