-- ===== src/Server/Connection/Delivers.antt =====
-- What handleTUNQUICConnection delivers to the device from a stream of whole frames that then ends.
use mathlib.Core.List.{append-nil, append_assoc}
use mvp_vpn_lite.Base.{
  ℕ, zero, suc, ◌<◌, ◌≡◌, refl, ◌∙◌, arith, Bool, true, false, none, List, [], ◌∷◌, ◌++◌, length,
  All, Bool-cases, inl, inr, if◌then◌else◌,
}
use mvp_vpn_lite.Base.Int.{pos}
use mvp_vpn_lite.Io.{eof, Write}
use mvp_vpn_lite.Framing.{read_frame}
use mvp_vpn_lite.Framing.RoundTrip.{frame, Fits, read_frame-frame}
use mvp_vpn_lite.Policy.{PacketPolicy, allow}
use mvp_vpn_lite.Stats.{Counters}
use mvp_vpn_lite.Stats.Flow.{Call, rx, drop, calls, call}
use mvp_vpn_lite.Device.{is_graceful_stream_end}
use mvp_vpn_lite.Loop.{returned}
use mvp_vpn_lite.Server.Demo.Answers.{frames}
use mvp_vpn_lite.Server.Connection.{
  ConnectionState, after_device_write, after_policy, after_read, receive_frames,
}

-- A device that takes every packet and keeps them in order.
abbrev pub keep_write : Write (List (List ℕ))
keep_write d packet = (none, d ++ (packet ∷ []))

abbrev pub allowed_packets : PacketPolicy → List (List ℕ) → List (List ℕ)
allowed_packets policy [] = []
allowed_packets policy (p ∷ ps) =
    let rest = allowed_packets policy ps in if allow policy p then p ∷ rest else rest

abbrev pub receive_calls : PacketPolicy → List (List ℕ) → List Call
receive_calls policy [] = []
receive_calls policy (p ∷ ps) =
    (if allow policy p then rx (pos (length p)) else drop) ∷ receive_calls policy ps

abbrev pub at_stream : List ℕ → List (List ℕ) → Counters → ConnectionState (List (List ℕ))
at_stream pending delivered c = record {
  reader = record { pending = pending; end = eof };
  device = delivered;
  counters = c;
}

turn_allowed :
    (policy : PacketPolicy) (ctx_done : Bool) (fuel : ℕ) (p rest : List ℕ)
    (delivered : List (List ℕ)) (c : Counters)
    → Fits p
    → allow policy p ≡ true
    → receive_frames keep_write policy ctx_done (suc fuel) (at_stream (frame p ++ rest) delivered c)
      ≡ receive_frames keep_write policy ctx_done fuel
          (at_stream rest (delivered ++ (p ∷ [])) (call c (rx (pos (length p)))))
unfolding receive_frames after_read after_policy after_device_write call
turn_allowed policy ctx_done fuel p rest delivered c fits allowed =
    rw (read_frame-frame p rest eof fits, allowed) refl

turn_denied :
    (policy : PacketPolicy) (ctx_done : Bool) (fuel : ℕ) (p rest : List ℕ)
    (delivered : List (List ℕ)) (c : Counters)
    → Fits p
    → allow policy p ≡ false
    → receive_frames keep_write policy ctx_done (suc fuel) (at_stream (frame p ++ rest) delivered c)
      ≡ receive_frames keep_write policy ctx_done fuel (at_stream rest delivered (call c drop))
unfolding receive_frames after_read after_policy call
turn_denied policy ctx_done fuel p rest delivered c fits denied =
    rw (read_frame-frame p rest eof fits, denied) refl

-- On a stream of whole frames that then ends, and a device that takes every packet, the device gets
-- exactly the packets that the policy allows, in their order; they are counted as received, the others
-- as dropped, and no error is counted.
pub receive_delivers :
    (policy : PacketPolicy) (ctx_done : Bool) (fuel : ℕ) (packets : List (List ℕ))
    (delivered : List (List ℕ)) (c : Counters)
    → All Fits packets
    → length packets < fuel
    → receive_frames keep_write policy ctx_done fuel (at_stream (frames packets) delivered c)
      ≡ returned (
          at_stream []
            (delivered ++ allowed_packets policy packets)
            (calls c (receive_calls policy packets)))
unfolding receive_frames after_read read_frame is_graceful_stream_end calls
receive_delivers policy ctx_done zero packets delivered c fit lt = absurd (omega arith)
receive_delivers policy true (suc fuel) [] delivered c fit lt = rw (append-nil delivered) refl
receive_delivers policy false (suc fuel) [] delivered c fit lt = rw (append-nil delivered) refl
receive_delivers policy ctx_done (suc fuel) (p ∷ ps) delivered c (fits, fit) lt =
    elim (Bool-cases (allow policy p)) [
      | inl allowed ↦
          turn_allowed policy ctx_done fuel p (frames ps) delivered c fits allowed
          ∙ receive_delivers policy ctx_done fuel ps (delivered ++ (p ∷ []))
              (call c (rx (pos (length p)))) fit (omega arith)
          ∙ rw (allowed, append_assoc delivered (p ∷ []) (allowed_packets policy ps)) refl
      | inr denied ↦
          turn_denied policy ctx_done fuel p (frames ps) delivered c fits denied
          ∙ receive_delivers policy ctx_done fuel ps delivered (call c drop) fit (omega arith)
          ∙ rw denied refl
    ]
