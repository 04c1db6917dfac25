-- ===== src/Device/Reads.antt =====
-- The loop over a packet device that forwardDevicePackets of internal/quictransport/server.go and
-- sendTUNPackets of internal/quictransport/client.go both have: reads, retries, the policy, and a way
-- to deliver a packet, which differs. What other goroutines do between two reads are events too.
pub mod Keeps
pub mod Retries
pub mod Denied
use mvp_vpn_lite.Base.{
  ℕ, ◌+◌, ◌==◌, Bool, true, false, ◌&&◌, Option, none, some, List, [], ◌∷◌, length, ltb,
  if◌then◌else◌,
}
use mvp_vpn_lite.Io.{IoError}
use mvp_vpn_lite.Loop.{Outcome, waiting, stopped, gave_up, crashed}
use mvp_vpn_lite.Policy.{PacketPolicy, allow}
use mvp_vpn_lite.Device.{
  max_retryable_packet_device_reads, is_closed_packet_device_error,
  is_retryable_packet_device_read_error,
}

-- One read of the device: `buffer[:n]`, or an error, with whether the context is then done and
-- whether the wait before a retry ran to its end.
pub data DeviceRead : Type 0 where
  packet : List ℕ → DeviceRead
  failed : IoError → Bool → Bool → DeviceRead

pub data Event (E : Type 0) : Type 0 where
  read : DeviceRead → Event E
  other : E → Event E

pub record LoopState (S : Type 0) : Type 0 where
  pub shared : S
  pub retryable_read_errors : ℕ

-- What the loop does to the shared state. `deliver` gives `none` where it panics.
pub record Pump (S : Type 0) (E : Type 0) : Type 0 where
  pub add_error : S → S
  pub add_drop : S → S
  pub deliver : S → List ℕ → Option S
  pub change : E → S → S

module _ {S E : Type 0} (pump : Pump S E) where
  -- `isClosedPacketDeviceError` and the retry of a failed read.
  pub after_error :
      (LoopState S → Outcome (LoopState S))
      → LoopState S
      → IoError
      → Bool
      → Bool
      → Outcome (LoopState S)
  after_error again st e ctx_done slept =
      let st' = record st { shared = pump.add_error st.shared } in
      let retried = record st' { retryable_read_errors = st.retryable_read_errors + 1 } in
      if is_closed_packet_device_error ctx_done e
      then stopped st
      else if is_retryable_packet_device_read_error e
          && ltb st.retryable_read_errors max_retryable_packet_device_reads
      then (if slept then again retried else stopped retried)
      else gave_up e st'

  unfoldable pub after_deliver :
      (LoopState S → Outcome (LoopState S)) → LoopState S → Option S → Outcome (LoopState S)
  after_deliver again st (some s) = again (record st { shared = s })
  after_deliver again st none = crashed

  -- After `policy.allow`.
  unfoldable pub after_policy :
      (LoopState S → Outcome (LoopState S)) → LoopState S → List ℕ → Bool → Outcome (LoopState S)
  after_policy again st bytes true = after_deliver again st (pump.deliver st.shared bytes)
  after_policy again st bytes false = again (record st { shared = pump.add_drop st.shared })

  module _ (policy : PacketPolicy) where
    unfoldable pub after_device_read :
        (LoopState S → Outcome (LoopState S)) → LoopState S → DeviceRead → Outcome (LoopState S)
    after_device_read again st (failed e ctx_done slept) = after_error again st e ctx_done slept
    after_device_read again st (packet bytes) =
        let st = record st { retryable_read_errors = 0 } in
        if length bytes == 0 then again st else after_policy again st bytes (allow policy bytes)

    unfoldable pub device_loop : List (Event E) → LoopState S → Outcome (LoopState S)
    unfolding after_device_read
    device_loop [] st = waiting st
    device_loop (read event ∷ events) st = after_device_read (device_loop events) st event
    device_loop (other e ∷ events) st =
        device_loop events (record st { shared = pump.change e st.shared })
