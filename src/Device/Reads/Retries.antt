-- ===== src/Device/Reads/Retries.antt =====
-- The retries of the device loop.
use mvp_vpn_lite.Base.{
  ℕ, zero, suc, ◌+◌, ◌≤◌, ◌≡◌, refl, ap, arith, ◌∙◌, true, false, List, ◌∷◌, ◌++◌, replicate,
  lt→ltb, le→ltb,
}
use mvp_vpn_lite.Io.{not_pollable}
use mvp_vpn_lite.Loop.{gave_up}
use mvp_vpn_lite.Policy.{PacketPolicy}
use mvp_vpn_lite.Device.{is_closed_packet_device_error, is_retryable_packet_device_read_error}
use mvp_vpn_lite.Device.Reads.{LoopState, Event, read, failed, Pump, after_error, device_loop}

-- A read that fails with "not pollable", the context alive and the wait not cut short.
abbrev pub transient : {E : Type 0} → Event E
transient = read (failed not_pollable false true)

abbrev pub times : {S : Type 0} → ℕ → (S → S) → S → S
times zero f s = s
times (suc k) f s = times k f (f s)

module _ {S E : Type 0} (pump : Pump S E) (policy : PacketPolicy) where
  -- The state with k more errors counted.
  abbrev pub with_errors : ℕ → LoopState S → LoopState S
  with_errors k st = record st { shared = times k pump.add_error st.shared }

  abbrev pub retried : ℕ → LoopState S → LoopState S
  retried k st = record (with_errors k st) { retryable_read_errors = st.retryable_read_errors + k }

  -- The state of one retry count is the state of an equal one.
  same_count :
      (events : List (Event E)) (k m n : ℕ) (st : LoopState S)
      → m ≡ n
      → device_loop pump policy events (record (with_errors k st) { retryable_read_errors = m })
        ≡ device_loop pump policy events (record (with_errors k st) { retryable_read_errors = n })
  same_count events k m n st e =
      ap
        (λ i.
          device_loop pump policy events (record (with_errors k st) { retryable_read_errors = i }))
        e

  -- Transient failures of the device are retried, as long as there are at most 100 without a packet
  -- between them; each is counted as an error and nothing else changes.
  pub loop_retries :
      (k : ℕ) (events : List (Event E)) (st : LoopState S)
      → st.retryable_read_errors + k ≤ 100
      → device_loop pump policy (replicate k transient ++ events) st
        ≡ device_loop pump policy events (retried k st)
  unfolding device_loop after_error is_closed_packet_device_error
      is_retryable_packet_device_read_error
  loop_retries zero events st le =
      same_count events 0 st.retryable_read_errors (st.retryable_read_errors + 0) st (omega arith)
  loop_retries (suc k) events st le = rw (lt→ltb st.retryable_read_errors 100 (omega arith)) (
      loop_retries k events (retried 1 st) (omega arith)
      ∙ same_count events (suc k) (st.retryable_read_errors + 1 + k)
          (st.retryable_read_errors + suc k) st (omega arith))

  -- The failure after 100 in a row ends the loop with the error, all of them counted.
  pub loop_gives_up :
      (k : ℕ) (events : List (Event E)) (st : LoopState S)
      → st.retryable_read_errors + k ≡ 100
      → device_loop pump policy (replicate k transient ++ transient ∷ events) st
        ≡ gave_up not_pollable (with_errors 1 (retried k st))
  unfolding device_loop after_error is_closed_packet_device_error
      is_retryable_packet_device_read_error
  loop_gives_up k events st e =
      loop_retries k (transient ∷ events) st (omega arith)
      ∙ rw (le→ltb (st.retryable_read_errors + k) 100 (omega arith)) refl
