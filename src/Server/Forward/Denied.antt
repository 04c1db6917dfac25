-- ===== src/Server/Forward/Denied.antt =====
-- What forwardDevicePackets does with the packets that the policy denies.
use mvp_vpn_lite.Base.{ℕ, ◌≡◌, ◌≢◌, refl, Option, none, some, List, Result, ok, err, panic}
use mvp_vpn_lite.Io.{Write}
use mvp_vpn_lite.Framing.{FrameError, write_frame}
use mvp_vpn_lite.Policy.{PacketPolicy}
use mvp_vpn_lite.Server.Session.{ServerPath, ServerTunSession, take_path}
use mvp_vpn_lite.Device.Reads.{Event}
use mvp_vpn_lite.Device.Reads.Denied.{permitted, Respected, Same, loop_permitted}
use mvp_vpn_lite.Server.Forward.{
  Shared, PathChange, joins, leaves, after_write_frame, write_on, write_next_path, after_write,
  change_paths, forward_pump, forward_device_packets,
}
use mvp_vpn_lite.Server.Forward.Keeps.{take_path-ne-panic}

-- The same paths and the same bytes on every stream; the counters may differ.
abbrev pub SamePaths : {W : Type 0} → Shared W → Shared W → Type 0
SamePaths s t = (s.session ≡ t.session) × (s.streams ≡ t.streams)

module _ {W : Type 0} (write : ℕ → Write W) where
  -- Two deliveries do not panic and keep the paths the same.
  abbrev Delivered : Option (Shared W) → Option (Shared W) → Type 0
  Delivered x y = (s : Shared W) × (t : Shared W) × (x ≡ some s) × (y ≡ some t) × SamePaths s t

  frame_delivered :
      (s t : Shared W) (bytes : List ℕ) (path : ServerPath) (result : Option FrameError × W)
      → SamePaths s t
      → Delivered
          (after_write write bytes (after_write_frame write s path result))
          (after_write write bytes (after_write_frame write t path result))
  unfolding after_write after_write_frame
  frame_delivered s t bytes path (none, w) (e, _) = (_, _, refl, refl, (e, refl))
  frame_delivered s t bytes path (some x, w) (e, _) = (_, _, refl, refl, (rw e refl, refl))

  taken_delivered :
      (s t : Shared W) (bytes : List ℕ) (taken : Result (Unit {0}) ServerPath × ServerTunSession)
      → taken.0 ≢ panic
      → s.streams ≡ t.streams
      → Delivered
          (after_write write bytes (write_on write s bytes taken))
          (after_write write bytes (write_on write t bytes taken))
  unfolding after_write write_on
  taken_delivered s t bytes (err x, session) ne e = (_, _, refl, refl, (refl, e))
  taken_delivered s t bytes (panic, session) ne e = absurd (ne refl)
  taken_delivered s t bytes (ok path, session) ne e = rw e (
      frame_delivered (record s { session = session }) (record t { session = session }) bytes path
        (write_frame (write path.stream) t.streams bytes) (refl, e))

  delivered :
      (s t : Shared W) (bytes : List ℕ)
      → SamePaths s t
      → Delivered ((forward_pump write).deliver s bytes) ((forward_pump write).deliver t bytes)
  unfolding write_next_path
  delivered s t bytes (es, ew) =
      rw es (taken_delivered s t bytes (take_path t.session) (take_path-ne-panic t.session) ew)

  change_same :
      (e : PathChange) (s t : Shared W)
      → SamePaths s t
      → SamePaths (change_paths write e s) (change_paths write e t)
  unfolding change_paths
  change_same (joins path_id stream) s t (es, ew) = (rw es refl, ew)
  change_same (leaves stream) s t (es, ew) = (rw es refl, ew)

  SamePaths-Respected : Respected (forward_pump write) SamePaths
  SamePaths-Respected = record {
    error = λ s t same. same;
    drop = λ s t same. same;
    deliver = delivered;
    change = change_same;
  }

  -- A packet that the policy denies has the effect of a read of no bytes, but for the counters: the
  -- loop ends in the same way, with the same paths and with the same bytes written on every stream.
  pub forward-permitted :
      (policy : PacketPolicy) (events : List (Event PathChange)) (s : Shared W) (n : ℕ)
      → Same SamePaths
          (forward_device_packets write policy events
            (record { shared = s; retryable_read_errors = n }))
          (forward_device_packets write policy
            (permitted policy events)
            (record { shared = s; retryable_read_errors = n }))
  forward-permitted policy events s n =
      loop_permitted (forward_pump write) SamePaths SamePaths-Respected policy events s s n
        (refl, refl)
