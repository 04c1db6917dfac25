-- ===== src/Device/Reads/Keeps.antt =====
-- What the device loop keeps: an invariant of the shared state that may count the packets.
use mvp_vpn_lite.Base.{
  ℕ, suc, ◌+◌, ◌≤◌, ◌≡◌, arith, Bool, true, false, ◌&&◌, some, List, [], ◌∷◌, length, ltb, ◌==◌,
  Bool-cases, inl, inr, if◌then◌else◌,
}
use mathlib.Core.Path.{subst}
use mvp_vpn_lite.Io.{IoError}
use mvp_vpn_lite.Loop.{Outcome, waiting, stopped, gave_up, crashed}
use mvp_vpn_lite.Policy.{PacketPolicy, allow}
use mvp_vpn_lite.Device.{
  max_retryable_packet_device_reads, is_closed_packet_device_error,
  is_retryable_packet_device_read_error,
}
use mvp_vpn_lite.Device.Reads.{
  DeviceRead, packet, failed, Event, read, other, LoopState, Pump, after_error, after_deliver,
  after_policy, after_device_read, device_loop,
}

abbrev filled_read : DeviceRead → ℕ
filled_read (packet bytes) = if length bytes == 0 then 0 else 1
filled_read _ = 0

-- The packets among the events; a read of no bytes is none.
abbrev pub packets : {E : Type 0} → List (Event E) → ℕ
packets [] = 0
packets (read event ∷ events) = filled_read event + packets events
packets (other e ∷ events) = packets events

-- An invariant of the shared state, with the number of the packets handled so far.
pub record Kept {S E : Type 0} (pump : Pump S E) (P : ℕ → S → Type 0) : Type 0 where
  pub error : (n : ℕ) (s : S) → P n s → P n (pump.add_error s)
  pub drop : (n : ℕ) (s : S) → P n s → P (suc n) (pump.add_drop s)
  pub deliver :
      (n : ℕ) (s : S) (bytes : List ℕ)
      → P n s
      → (s' : S) × (pump.deliver s bytes ≡ some s') × P (suc n) s'
  pub change : (n : ℕ) (e : E) (s : S) → P n s → P n (pump.change e s)

module _ {S E : Type 0} (pump : Pump S E) (P : ℕ → S → Type 0) (kept : Kept pump P) where
  -- The loop does not panic. Where it waits it has handled n packets; where it has returned, at most
  -- as many.
  unfoldable pub Ends : ℕ → Outcome (LoopState S) → Type 0
  Ends n (waiting st) = P n st.shared
  Ends n (stopped st) = (m : ℕ) × (m ≤ n) × P m st.shared
  Ends n (gave_up e st) = (m : ℕ) × (m ≤ n) × P m st.shared
  Ends n crashed = ⊥

  -- The continuation handles `more` packets.
  abbrev Goes : ℕ → (LoopState S → Outcome (LoopState S)) → Type 0
  Goes more again = (n : ℕ) (st : LoopState S) → P n st.shared → Ends (n + more) (again st)

  choice-Ends :
      (n : ℕ) (b : Bool) (x y : Outcome (LoopState S))
      → Ends n x
      → Ends n y
      → Ends n (if b then x else y)
  choice-Ends n true x y hx hy = hx
  choice-Ends n false x y hx hy = hy

  after_error-Ends :
      (more n : ℕ) (again : LoopState S → Outcome (LoopState S)) (st : LoopState S) (x : IoError)
      (ctx_done slept : Bool)
      → Goes more again
      → P n st.shared
      → Ends (n + more) (after_error pump again st x ctx_done slept)
  unfolding after_error Ends
  after_error-Ends more n again st x ctx_done slept go p =
      choice-Ends (n + more) (is_closed_packet_device_error ctx_done x) _ _ (n, omega arith, p)
        (choice-Ends (n + more)
          (is_retryable_packet_device_read_error x
            && ltb st.retryable_read_errors max_retryable_packet_device_reads)
          _ _
          (choice-Ends (n + more) slept _ _ (go n _ (kept.error n st.shared p))
            (n, omega arith, kept.error n st.shared p))
          (n, omega arith, kept.error n st.shared p))

  after_policy-Ends :
      (more n : ℕ) (again : LoopState S → Outcome (LoopState S)) (st : LoopState S) (bytes : List ℕ)
      (allowed : Bool)
      → Goes more again
      → P n st.shared
      → Ends (suc n + more) (after_policy pump again st bytes allowed)
  unfolding after_policy after_deliver
  after_policy-Ends more n again st bytes true go p =
      let (s', delivered, p') = kept.deliver n st.shared bytes p in
      rw delivered (go (suc n) (record st { shared = s' }) p')
  after_policy-Ends more n again st bytes false go p =
      go (suc n) (record st { shared = pump.add_drop st.shared }) (kept.drop n st.shared p)

  after_device_read-Ends :
      (policy : PacketPolicy) (more n : ℕ) (again : LoopState S → Outcome (LoopState S))
      (st : LoopState S) (event : DeviceRead)
      → Goes more again
      → P n st.shared
      → Ends (n + (filled_read event + more)) (after_device_read pump policy again st event)
  unfolding after_device_read
  after_device_read-Ends policy more n again st (failed x ctx_done slept) go p =
      subst (λ k. Ends k (after_error pump again st x ctx_done slept)) (omega arith)
        (after_error-Ends more n again st x ctx_done slept go p)
  after_device_read-Ends policy more n again st (packet bytes) go p =
      let st' : LoopState S = record st { retryable_read_errors = 0 } in
      elim (Bool-cases (length bytes == 0)) [
        | inl empty ↦ rw empty (subst (λ k. Ends k (again st')) (omega arith) (go n st' p))
        | inr filled ↦ rw filled (
            subst (λ k. Ends k (after_policy pump again st' bytes (allow policy bytes)))
              (omega arith) (after_policy-Ends more n again st' bytes (allow policy bytes) go p))
      ]

  -- The loop keeps the invariant, and counts the packets.
  pub device_loop-Ends :
      (policy : PacketPolicy) (events : List (Event E)) (n : ℕ) (st : LoopState S)
      → P n st.shared
      → Ends (n + packets events) (device_loop pump policy events st)
  unfolding device_loop
  device_loop-Ends policy [] n st p = unfold Ends in subst (λ k. P k st.shared) (omega arith) p
  device_loop-Ends policy (read event ∷ events) n st p =
      after_device_read-Ends policy (packets events) n (device_loop pump policy events) st event
        (λ m st' p'. device_loop-Ends policy events m st' p') p
  device_loop-Ends policy (other e ∷ events) n st p =
      device_loop-Ends policy events n (record st { shared = pump.change e st.shared })
        (kept.change n e st.shared p)
