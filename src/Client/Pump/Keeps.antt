-- ===== src/Client/Pump/Keeps.antt =====
-- What the client's loop from the device keeps: the set of the paths is valid, and every packet is
-- counted once.
use mvp_vpn_lite.Base.{ℕ, suc, ◌+◌, ◌%◌, ◌^◌, ◌≡◌, arith, refl, Option, none, some, List, length}
use mathlib.Core.Path.{subst}
use mvp_vpn_lite.Io.{Write}
use mvp_vpn_lite.Policy.{PacketPolicy}
use mvp_vpn_lite.Stats.{add_drop, add_error}
use mvp_vpn_lite.Stats.Flow.{handled}
use mvp_vpn_lite.Client.Path.{ClientPath}
use mvp_vpn_lite.Client.PathSet.{ClientPathSet, add, remove}
use mvp_vpn_lite.Client.PathSet.Invariant.{IsValid, add-IsValid, remove-IsValid}
use mvp_vpn_lite.Client.Send.{ClientShared}
use mvp_vpn_lite.Client.Send.Total.{send_packet_total}
use mvp_vpn_lite.Device.Reads.{Event, LoopState}
use mvp_vpn_lite.Device.Reads.Keeps.{packets, Kept, Ends, device_loop-Ends}
use mvp_vpn_lite.Client.Pump.{
  PathEvent, reconnected, receiver_ended, close_if, change_path_set, when_returned, send_pump,
  send_tun_packets,
}

-- A valid set of paths, and n packets counted since the count h.
pub record Sound {W : Type 0} (h n : ℕ) (s : ClientShared W) : Type 0 where
  pub valid : IsValid s.path_set
  pub counted : handled s.counters ≡ (h + n) % 2 ^ 64

module _ {W : Type 0} (write : ℕ → Write W) (close : ClientPath → W → W) (clock : ℕ → ℕ)
    (h : ℕ) where
  closed-Sound :
      (n : ℕ) (s : ClientShared W) (changed : Option ClientPath × ClientPathSet)
      → IsValid changed.1
      → Sound h n s
      → Sound h n (close_if write close clock s changed)
  unfolding close_if
  closed-Sound n s (none, set) v sound = record { valid = v; counted = sound.counted }
  closed-Sound n s (some old, set) v sound = record { valid = v; counted = sound.counted }

  change-Sound :
      (n : ℕ) (e : PathEvent) (s : ClientShared W)
      → Sound h n s
      → Sound h n (change_path_set write close clock e s)
  unfolding change_path_set
  change-Sound n (reconnected path) s sound =
      closed-Sound n s (add s.path_set path) (add-IsValid s.path_set path sound.valid) sound
  change-Sound n (receiver_ended stream) s sound =
      closed-Sound n s (remove s.path_set stream) (remove-IsValid s.path_set stream sound.valid)
        sound

  deliver-Sound :
      (n : ℕ) (s : ClientShared W) (packet : List ℕ)
      → Sound h n s
      → (end : ClientShared W) × ((send_pump write close clock).deliver s packet ≡ some end)
        × Sound h (suc n) end
  unfolding when_returned
  deliver-Sound n s packet sound =
      let (end, sent, done) =
        send_packet_total write close clock packet (length s.path_set.paths + 1) s sound.valid
          (omega arith) in
      (
        end,
        rw sent refl,
        record { valid = done.valid; counted = omega (arith, done.counted, sound.counted) },
      )

  error-Sound :
      (n : ℕ) (s : ClientShared W)
      → Sound h n s
      → Sound h n ((send_pump write close clock).add_error s)
  unfolding add_error
  error-Sound n s sound = record { valid = sound.valid; counted = sound.counted }

  drop-Sound :
      (n : ℕ) (s : ClientShared W)
      → Sound h n s
      → Sound h (suc n) ((send_pump write close clock).add_drop s)
  unfolding add_drop
  drop-Sound n s sound = record { valid = sound.valid; counted = omega (arith, sound.counted) }

  pub Sound-Kept : Kept (send_pump write close clock) (Sound h)
  Sound-Kept = record {
    error = error-Sound;
    drop = drop-Sound;
    deliver = deliver-Sound;
    change = change-Sound;
  }

module _ {W : Type 0} (write : ℕ → Write W) (close : ClientPath → W → W) (clock : ℕ → ℕ) where
  -- From a valid set of paths the client's loop does not panic, and the sending of each packet ends,
  -- whatever is read and whichever paths fail, come back or go. The set stays valid, and the packets
  -- are counted once each, as sent or as dropped (the counts are modulo 2^64): all of them where the
  -- loop waits, and at most all of them where it has returned.
  pub send_tun_packets-Ends :
      (policy : PacketPolicy) (events : List (Event PathEvent)) (st : LoopState (ClientShared W))
      → IsValid st.shared.path_set
      → Ends
          (send_pump write close clock)
          (Sound (handled st.shared.counters))
          (Sound-Kept write close clock (handled st.shared.counters))
          (packets events)
          (send_tun_packets write close clock policy events st)
  send_tun_packets-Ends policy events st v =
      let h = handled st.shared.counters in
      subst
        (λ n.
          Ends (send_pump write close clock) (Sound h) (Sound-Kept write close clock h) n
            (send_tun_packets write close clock policy events st))
        (omega arith)
        (device_loop-Ends (send_pump write close clock) (Sound h) (Sound-Kept write close clock h)
          policy events 0 st (record { valid = v; counted = omega arith }))
