-- ===== src/Device/Reads/Denied.antt =====
-- What the device loop does with the packets that the policy denies.
use mvp_vpn_lite.Base.{
  ℕ, ◌+◌, ◌≡◌, Bool, true, false, some, List, [], ◌∷◌, length, Bool-cases, inl, inr, ◌==◌, ◌&&◌,
  ltb, if◌then◌else◌,
}
use mvp_vpn_lite.Io.{IoError}
use mvp_vpn_lite.Loop.{Outcome}
use mvp_vpn_lite.Policy.{PacketPolicy, allow}
use mvp_vpn_lite.Device.{
  max_retryable_packet_device_reads, is_closed_packet_device_error,
  is_retryable_packet_device_read_error,
}
use mvp_vpn_lite.Device.Reads.{
  DeviceRead, packet, failed, Event, read, other, LoopState, Pump, after_error, after_deliver,
  after_policy, after_device_read, device_loop,
}

-- A denied packet, seen as a read of no bytes.
abbrev pub permitted_read : PacketPolicy → DeviceRead → DeviceRead
permitted_read policy (packet bytes) = packet (if allow policy bytes then bytes else [])
permitted_read policy (failed e ctx_done slept) = failed e ctx_done slept

abbrev pub permitted : {E : Type 0} → PacketPolicy → List (Event E) → List (Event E)
permitted policy [] = []
permitted policy (read event ∷ events) =
    read (permitted_read policy event) ∷ permitted policy events
permitted policy (other e ∷ events) = other e ∷ permitted policy events

-- A relation of shared states that the loop's actions respect, and that a drop does not leave.
pub record Respected {S E : Type 0} (pump : Pump S E) (R : S → S → Type 0) : Type 0 where
  pub error : (s t : S) → R s t → R (pump.add_error s) (pump.add_error t)
  pub drop : (s t : S) → R s t → R (pump.add_drop s) t
  pub deliver :
      (s t : S) (bytes : List ℕ)
      → R s t
      → (s' : S) × (t' : S) × (pump.deliver s bytes ≡ some s')
        × (pump.deliver t bytes ≡ some t')
        × R s' t'
  pub change : (e : E) (s t : S) → R s t → R (pump.change e s) (pump.change e t)

-- Two loops end in the same way, in related states.
pub data Same {S : Type 0} (R : S → S → Type 0)
    : Outcome (LoopState S) → Outcome (LoopState S) → Type 0 where
  waiting :
      (s t : S) (n : ℕ)
      → R s t
      → Same R
          (Outcome.waiting (record { shared = s; retryable_read_errors = n }))
          (Outcome.waiting (record { shared = t; retryable_read_errors = n }))
  stopped :
      (s t : S) (n : ℕ)
      → R s t
      → Same R
          (Outcome.stopped (record { shared = s; retryable_read_errors = n }))
          (Outcome.stopped (record { shared = t; retryable_read_errors = n }))
  gave_up :
      (e : IoError) (s t : S) (n : ℕ)
      → R s t
      → Same R
          (Outcome.gave_up e (record { shared = s; retryable_read_errors = n }))
          (Outcome.gave_up e (record { shared = t; retryable_read_errors = n }))

module _ {S E : Type 0} (pump : Pump S E) (R : S → S → Type 0) (respected : Respected pump R) where
  abbrev at : S → ℕ → LoopState S
  at s n = record { shared = s; retryable_read_errors = n }

  -- Two continuations do so from related states.
  abbrev Agree :
      (LoopState S → Outcome (LoopState S)) → (LoopState S → Outcome (LoopState S)) → Type 0
  Agree f g = (s t : S) (n : ℕ) → R s t → Same R (f (at s n)) (g (at t n))

  choice-Same :
      (b : Bool) {x y x' y' : Outcome (LoopState S)}
      → Same R x x'
      → Same R y y'
      → Same R (if b then x else y) (if b then x' else y')
  choice-Same true hx hy = hx
  choice-Same false hx hy = hy

  error_agrees :
      (f g : LoopState S → Outcome (LoopState S)) (s t : S) (n : ℕ) (x : IoError)
      (ctx_done slept : Bool)
      → Agree f g
      → R s t
      → Same R
          (after_error pump f (at s n) x ctx_done slept)
          (after_error pump g (at t n) x ctx_done slept)
  unfolding after_error
  error_agrees f g s t n x ctx_done slept h r =
      let counted = respected.error s t r in
      choice-Same (is_closed_packet_device_error ctx_done x) (Same.stopped s t n r) (
        choice-Same
          (is_retryable_packet_device_read_error x && ltb n max_retryable_packet_device_reads)
          (choice-Same slept (h (pump.add_error s) (pump.add_error t) (n + 1) counted)
            (Same.stopped (pump.add_error s) (pump.add_error t) (n + 1) counted))
          (Same.gave_up x (pump.add_error s) (pump.add_error t) n counted))

  deliver_agrees :
      (f g : LoopState S → Outcome (LoopState S)) (s t : S) (bytes : List ℕ)
      → Agree f g
      → R s t
      → Same R
          (after_deliver pump f (at s 0) (pump.deliver s bytes))
          (after_deliver pump g (at t 0) (pump.deliver t bytes))
  unfolding after_deliver
  deliver_agrees f g s t bytes h r =
      let (s', t', es, et, r') = respected.deliver s t bytes r in rw (es, et) (h s' t' 0 r')

  -- A packet against what is left of it.
  packet_agrees :
      (policy : PacketPolicy) (f g : LoopState S → Outcome (LoopState S)) (s t : S) (n : ℕ)
      (bytes : List ℕ)
      → Agree f g
      → R s t
      → Same R
          (after_device_read pump policy f (at s n) (packet bytes))
          (after_device_read pump policy g (at t n) (permitted_read policy (packet bytes)))
  unfolding after_device_read after_policy
  packet_agrees policy f g s t n bytes h r = elim (Bool-cases (allow policy bytes)) [
    | inl allowed ↦ rw allowed (
        choice-Same (length bytes == 0) (h s t 0 r) (rw allowed (deliver_agrees f g s t bytes h r)))
    | inr denied ↦ elim (Bool-cases (length bytes == 0)) [
      | inl empty ↦ rw (denied, empty) (h s t 0 r)
      | inr filled ↦ rw (denied, filled) (h (pump.add_drop s) t 0 (respected.drop s t r))
    ]
  ]

  -- A packet that the policy denies has the effect of a read of no bytes, up to the relation.
  pub loop_permitted :
      (policy : PacketPolicy) (events : List (Event E))
      → Agree (device_loop pump policy events) (device_loop pump policy (permitted policy events))
  unfolding device_loop after_device_read
  loop_permitted policy [] s t n r = Same.waiting s t n r
  loop_permitted policy (read (packet bytes) ∷ events) s t n r =
      packet_agrees policy (device_loop pump policy events)
        (device_loop pump policy (permitted policy events)) s t n bytes
        (loop_permitted policy events) r
  loop_permitted policy (read (failed x ctx_done slept) ∷ events) s t n r =
      error_agrees (device_loop pump policy events)
        (device_loop pump policy (permitted policy events)) s t n x ctx_done slept
        (loop_permitted policy events) r
  loop_permitted policy (other e ∷ events) s t n r =
      loop_permitted policy events (pump.change e s) (pump.change e t) n (respected.change e s t r)
