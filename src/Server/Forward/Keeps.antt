-- ===== src/Server/Forward/Keeps.antt =====
-- forwardDevicePackets does not panic, and counts every packet once.
use mvp_vpn_lite.Base.{
  ℕ, suc, ◌+◌, ◌%◌, ◌^◌, ◌<◌, ◌≡◌, ◌≢◌, refl, arith, false, Option, none, some, List, Result, ok,
  err, panic, length, get_elem?_lt, Bool-cases, inl, inr, ◌==◌,
}
use native.Mathlib.Nat.{mod-lt}
use mvp_vpn_lite.Io.{Write}
use mvp_vpn_lite.Framing.{FrameError, write_frame}
use mvp_vpn_lite.Policy.{PacketPolicy}
use mvp_vpn_lite.Stats.{add_tx, add_drop, add_error}
use mvp_vpn_lite.Stats.Flow.{handled}
use mvp_vpn_lite.Loop.{waiting, crashed}
use mvp_vpn_lite.Device.Reads.{Event, LoopState}
use mvp_vpn_lite.Device.Reads.Keeps.{packets, Kept, Ends, device_loop-Ends}
use mvp_vpn_lite.Server.Session.{ServerPath, ServerTunSession, take_path}
use mvp_vpn_lite.Server.Forward.{
  Shared, PathError, PathChange, joins, leaves, after_write_frame, write_on, write_next_path,
  after_write, change_paths, forward_pump, forward_device_packets,
}

positive : (paths : List ServerPath) → (length paths == 0) ≡ false → 0 < length paths
positive paths h = ground arith

-- The index of `writeNextPath` is in range.
pub take_path-ne-panic : (s : ServerTunSession) → (take_path s).0 ≢ panic
unfolding take_path
take_path-ne-panic s = elim (Bool-cases (length s.paths == 0)) [
  | inl empty ↦ rw empty (λ e. cc)
  | inr some_path ↦
      let (p, found) =
        get_elem?_lt s.paths (s.next_path % length s.paths)
          (mod-lt s.next_path (positive s.paths some_path)) in
      rw (some_path, found) (λ e. cc)
]

module _ {W : Type 0} (write : ℕ → Write W) where
  after_write_frame-ne-panic :
      (s : Shared W) (path : ServerPath) (result : Option FrameError × W)
      → (after_write_frame write s path result).0 ≢ panic
  unfolding after_write_frame
  after_write_frame-ne-panic s path (none, w) e = cc
  after_write_frame-ne-panic s path (some x, w) e = cc

  write_on-ne-panic :
      (s : Shared W) (bytes : List ℕ) (taken : Result (Unit {0}) ServerPath × ServerTunSession)
      → taken.0 ≢ panic
      → (write_on write s bytes taken).0 ≢ panic
  unfolding write_on
  write_on-ne-panic s bytes (err x, session) ne e = cc
  write_on-ne-panic s bytes (panic, session) ne e = ne refl
  write_on-ne-panic s bytes (ok path, session) ne e =
      after_write_frame-ne-panic (record s { session = session }) path
        (write_frame (write path.stream) s.streams bytes) e

  pub write_next_path-ne-panic :
      (s : Shared W) (bytes : List ℕ) → (write_next_path write s bytes).0 ≢ panic
  unfolding write_next_path
  write_next_path-ne-panic s bytes =
      write_on-ne-panic s bytes (take_path s.session) (take_path-ne-panic s.session)

  after_write_frame-handled :
      (s : Shared W) (path : ServerPath) (result : Option FrameError × W)
      → let s' = (after_write_frame write s path result).1 in
        handled s'.counters ≡ handled s.counters
  unfolding after_write_frame add_error
  after_write_frame-handled s path (none, w) = refl
  after_write_frame-handled s path (some e, w) = refl

  write_on-handled :
      (s : Shared W) (bytes : List ℕ) (taken : Result (Unit {0}) ServerPath × ServerTunSession)
      → let s' = (write_on write s bytes taken).1 in handled s'.counters ≡ handled s.counters
  unfolding write_on
  write_on-handled s bytes (err x, session) = refl
  write_on-handled s bytes (panic, session) = refl
  write_on-handled s bytes (ok path, session) =
      after_write_frame-handled (record s { session = session }) path
        (write_frame (write path.stream) s.streams bytes)

  write_next_path-handled :
      (s : Shared W) (bytes : List ℕ)
      → let s' = (write_next_path write s bytes).1 in handled s'.counters ≡ handled s.counters
  unfolding write_next_path
  write_next_path-handled s bytes = write_on-handled s bytes (take_path s.session)

  -- n packets counted since the count h.
  abbrev Counted : ℕ → ℕ → Shared W → Type 0
  Counted h n s = handled s.counters ≡ (h + n) % 2 ^ 64

  after_write-Counted :
      (h n : ℕ) (bytes : List ℕ) (result : Result PathError (Unit {0}) × Shared W)
      → result.0 ≢ panic
      → Counted h n result.1
      → (s' : Shared W) × (after_write write bytes result ≡ some s') × Counted h (suc n) s'
  unfolding after_write add_tx add_drop
  after_write-Counted h n bytes (ok x, s) ne e = (_, refl, omega arith)
  after_write-Counted h n bytes (err x, s) ne e = (_, refl, omega arith)
  after_write-Counted h n bytes (panic, s) ne e = absurd (ne refl)

  change-Counted :
      (h n : ℕ) (e : PathChange) (s : Shared W)
      → Counted h n s
      → Counted h n (change_paths write e s)
  unfolding change_paths
  change-Counted h n (joins path_id stream) s e = e
  change-Counted h n (leaves stream) s e = e

  count_error :
      (h n : ℕ) (s : Shared W) → Counted h n s → Counted h n ((forward_pump write).add_error s)
  unfolding add_error
  count_error h n s e = e

  count_drop :
      (h n : ℕ) (s : Shared W) → Counted h n s → Counted h (suc n) ((forward_pump write).add_drop s)
  unfolding add_drop
  count_drop h n s e = omega arith

  Counted-Kept : (h : ℕ) → Kept (forward_pump write) (Counted h)
  Counted-Kept h = record {
    error = count_error h;
    drop = count_drop h;
    deliver = λ n s bytes e.
        after_write-Counted h n bytes (write_next_path write s bytes)
          (write_next_path-ne-panic s bytes) (rw (write_next_path-handled s bytes) e);
    change = change-Counted h;
  }

  -- The loop from the device to the paths does not panic, whatever is read and whichever paths join
  -- and leave.
  forward-ne-crashed :
      (policy : PacketPolicy) (events : List (Event PathChange)) (st : LoopState (Shared W))
      → forward_device_packets write policy events st ≢ crashed
  unfolding Ends
  forward-ne-crashed policy events st e = rw e at (
      device_loop-Ends (forward_pump write) (Counted (handled st.shared.counters))
        (Counted-Kept (handled st.shared.counters)) policy events 0 st (omega arith))

  -- Every packet that the loop has read is counted once, as sent or as dropped (the counts are modulo
  -- 2^64): where the loop waits, the two counts together have grown by the number of the packets.
  pub forward-handled :
      (policy : PacketPolicy) (events : List (Event PathChange)) (st end : LoopState (Shared W))
      → forward_device_packets write policy events st ≡ waiting end
      → handled end.shared.counters ≡ (handled st.shared.counters + packets events) % 2 ^ 64
  unfolding Ends
  forward-handled policy events st end e =
      let counted = rw e at (
        device_loop-Ends (forward_pump write) (Counted (handled st.shared.counters))
          (Counted-Kept (handled st.shared.counters)) policy events 0 st (omega arith)) in
      omega (arith, counted)
