-- ===== src/Server/Connection/Total.antt =====
-- The loop of handleTUNQUICConnection ends, whatever the client sends.
use mvp_vpn_lite.Base.{
  ℕ, zero, suc, ◌<◌, ◌≡◌, ◌≢◌, refl, arith, Bool, true, false, Option, none, some, List, Result, ok,
  err, panic, length,
}
use mvp_vpn_lite.Io.{IoError, Reader, Write}
use mvp_vpn_lite.Framing.{FrameError, read_frame}
use mvp_vpn_lite.Framing.Progress.{read_frame_takes, read_frame-ne-panic}
use mvp_vpn_lite.Policy.{PacketPolicy, allow}
use mvp_vpn_lite.Loop.{Run, returned}
use mvp_vpn_lite.Server.Connection.{
  ConnectionState, after_device_write, after_policy, after_read, receive_frames,
}

module _ {D : Type 0} (write_device : Write D) (policy : PacketPolicy) (ctx_done : Bool) where
  abbrev Ends : Run (ConnectionState D) → Type 0
  Ends run = (end : ConnectionState D) × (run ≡ returned end)

  -- The loop goes on well from any state with this reader.
  abbrev Continues : (ConnectionState D → Run (ConnectionState D)) → Reader → Type 0
  Continues again r = (next : ConnectionState D) → next.reader ≡ r → Ends (again next)

  after_device_write-Ends :
      (again : ConnectionState D → Run (ConnectionState D)) (st : ConnectionState D)
      (raw_packet : List ℕ) (result : Option IoError × D)
      → Continues again st.reader
      → Ends (after_device_write write_device policy ctx_done again st raw_packet result)
  unfolding after_device_write
  after_device_write-Ends again st raw_packet (some e, d) h = (_, refl)
  after_device_write-Ends again st raw_packet (none, d) h = h _ refl

  after_policy-Ends :
      (again : ConnectionState D → Run (ConnectionState D)) (st : ConnectionState D)
      (raw_packet : List ℕ) (allowed : Bool)
      → Continues again st.reader
      → Ends (after_policy write_device policy ctx_done again st raw_packet allowed)
  unfolding after_policy
  after_policy-Ends again st raw_packet true h =
      after_device_write-Ends again st raw_packet (write_device st.device raw_packet) h
  after_policy-Ends again st raw_packet false h = h _ refl

  after_read-Ends :
      (again : ConnectionState D → Run (ConnectionState D)) (st : ConnectionState D)
      (result : Result FrameError (List ℕ) × Reader)
      → result.0 ≢ panic
      → ((payload : List ℕ) (r : Reader) → result ≡ (ok payload, r) → Continues again r)
      → Ends (after_read write_device policy ctx_done again st result)
  unfolding after_read
  after_read-Ends again st (ok raw_packet, r) ne h =
      after_policy-Ends again (record st { reader = r }) raw_packet (allow policy raw_packet)
        (h raw_packet r refl)
  after_read-Ends again st (err e, r) ne h = (_, refl)
  after_read-Ends again st (panic, r) ne h = absurd (ne refl)

  -- The receiving loop of a TUN connection returns, whatever bytes the client sends and whatever the
  -- device does: it does not panic, and one more turn than there are bytes is enough.
  pub receive_total :
      (fuel : ℕ) (st : ConnectionState D)
      → length st.reader.pending < fuel
      → (end : ConnectionState D) × (receive_frames write_device policy ctx_done fuel st
          ≡ returned end)
  unfolding receive_frames
  receive_total zero st lt = absurd (omega arith)
  receive_total (suc fuel) st lt =
      after_read-Ends (receive_frames write_device policy ctx_done fuel) st (read_frame st.reader)
        (read_frame-ne-panic st.reader)
        λ payload r e next same.
          let shorter = read_frame_takes st.reader r payload e in
          receive_total fuel next (rw same (omega arith))
