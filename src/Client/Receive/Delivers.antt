-- ===== src/Client/Receive/Delivers.antt =====
-- What receivePathPackets delivers to the device from a stream of whole frames that then ends.
use mathlib.Core.List.{append-nil, append_assoc}
use mvp_vpn_lite.Base.{
  ℕ, zero, suc, ◌<◌, ◌≡◌, refl, ◌∙◌, arith, Bool, true, false, none, List, [], ◌∷◌, ◌++◌, length,
  All, Bool-cases, inl, inr,
}
use mvp_vpn_lite.Base.Int.{pos}
use mvp_vpn_lite.Io.{eof}
use mvp_vpn_lite.Framing.{read_frame}
use mvp_vpn_lite.Framing.RoundTrip.{frame, Fits, read_frame-frame}
use mvp_vpn_lite.Policy.{PacketPolicy, allow}
use mvp_vpn_lite.Stats.{Counters}
use mvp_vpn_lite.Stats.Flow.{rx, drop, calls, call}
use mvp_vpn_lite.Device.{is_closed, is_graceful_stream_end}
use mvp_vpn_lite.Loop.{returned}
use mvp_vpn_lite.Server.Demo.Answers.{frames}
use mvp_vpn_lite.Server.Connection.Delivers.{keep_write, allowed_packets, receive_calls}
use mvp_vpn_lite.Client.Receive.{
  ReceiveState, is_closed_frame, after_packet_write, after_allow, after_read_frame, receive_loop,
}

abbrev pub at_path : List ℕ → List (List ℕ) → Counters → ReceiveState (List (List ℕ))
at_path pending delivered c = record {
  reader = record { pending = pending; end = eof };
  device = delivered;
  counters = c;
  fatal = none;
}

-- One turn on a frame that is there.
turn :
    (policy : PacketPolicy) (ctx_done : Bool) (fuel : ℕ) (p rest : List ℕ)
    (delivered : List (List ℕ)) (c : Counters)
    → Fits p
    → receive_loop keep_write policy ctx_done (suc fuel) (at_path (frame p ++ rest) delivered c)
      ≡ after_allow keep_write policy ctx_done
          (receive_loop keep_write policy ctx_done fuel)
          (at_path rest delivered c)
          p
          (allow policy p)
unfolding receive_loop after_read_frame
turn policy ctx_done fuel p rest delivered c fits = rw (read_frame-frame p rest eof fits) refl

pub receive_loop_delivers :
    (policy : PacketPolicy) (ctx_done : Bool) (fuel : ℕ) (packets delivered : List (List ℕ))
    (c : Counters)
    → All Fits packets
    → length packets < fuel
    → receive_loop keep_write policy ctx_done fuel (at_path (frames packets) delivered c)
      ≡ returned (
          at_path []
            (delivered ++ allowed_packets policy packets)
            (calls c (receive_calls policy packets)))
unfolding receive_loop after_read_frame after_allow after_packet_write read_frame is_closed_frame
    is_closed is_graceful_stream_end calls call
receive_loop_delivers policy ctx_done zero packets delivered c fit lt = absurd (omega arith)
receive_loop_delivers policy true (suc fuel) [] delivered c fit lt = rw (append-nil delivered) refl
receive_loop_delivers policy false (suc fuel) [] delivered c fit lt = rw (append-nil delivered) refl
receive_loop_delivers policy ctx_done (suc fuel) (p ∷ ps) delivered c (fits, fit) lt =
    elim (Bool-cases (allow policy p)) [
      | inl allowed ↦
          turn policy ctx_done fuel p (frames ps) delivered c fits
          ∙ rw allowed (
              receive_loop_delivers policy ctx_done fuel ps (delivered ++ (p ∷ []))
                (call c (rx (pos (length p)))) fit (omega arith)
              ∙ rw (append_assoc delivered (p ∷ []) (allowed_packets policy ps)) refl)
      | inr denied ↦
          turn policy ctx_done fuel p (frames ps) delivered c fits
          ∙ rw denied (
              receive_loop_delivers policy ctx_done fuel ps delivered (call c drop) fit
                (omega arith))
    ]
