-- ===== src/Tunnel/Routes.antt =====
-- A device loop that sends what it reads on streams in turn, and what is then on each stream.
use mathlib.Core.List.{append_assoc, append-nil}
use mvp_vpn_lite.Base.{
  ℕ, ◌+◌, ◌%◌, ◌^◌, ◌≤◌, ◌≡◌, refl, arith, sym, false, none, some, List, [], ◌∷◌, ◌++◌, All, length,
  Bool-cases, inl, inr, ltb, ◌==◌, if◌then◌else◌,
}
use mvp_vpn_lite.Framing.{write_frame, put_uint32, max_frame_size}
use mvp_vpn_lite.Framing.RoundTrip.{frame, Fits}
use mvp_vpn_lite.Policy.{PacketPolicy, allow}
use mvp_vpn_lite.Loop.{waiting}
use mvp_vpn_lite.Device.Reads.{
  Pump, LoopState, device_loop, after_device_read, after_policy, after_deliver,
}
use mvp_vpn_lite.Server.Demo.Answers.{frames}
use mvp_vpn_lite.Server.Connection.Delivers.{allowed_packets}
use mvp_vpn_lite.Tunnel.{Streams, streams_write, reads, routes, routed}

abbrev written_twice : ℕ → Streams → List ℕ → List ℕ → Streams
written_twice stream w front back = (streams_write stream (streams_write stream w front).1 back).1

-- Both writes of a frame go to its stream.
pub write_frame-streams :
    (stream : ℕ) (w : Streams) (payload : List ℕ)
    → Fits payload
    → (w' : Streams) × (write_frame (streams_write stream) w payload ≡ (none, w'))
      × ((s : ℕ) → w' s ≡ (if s == stream then w s ++ frame payload else w s))
unfolding write_frame
write_frame-streams stream w payload f =
    let not_empty : (length payload == 0) ≡ false = ground (arith, f.not_empty) in
    let not_large : ltb max_frame_size (length payload) ≡ false = ground (arith, f.not_large) in
    let same : length payload % 2 ^ 32 ≡ length payload = omega (arith, f.not_large) in
    (
      written_twice stream w (put_uint32 (length payload)) payload,
      rw (not_empty, not_large, same) refl,
      λ s. ground (arith, append_assoc (w s) (put_uint32 (length payload)) payload),
    )

frames-append : (ps : List (List ℕ)) (p : List ℕ) → frames (ps ++ (p ∷ [])) ≡ frames ps ++ frame p
frames-append [] p = append-nil (frame p)
frames-append (q ∷ ps) p =
    rw (frames-append ps p) (sym (append_assoc (frame q) (frames ps) (frame p)))

routed-append :
    (stream s : ℕ) (sent : List (ℕ × List ℕ)) (p : List ℕ)
    → routed stream (sent ++ ((s, p) ∷ []))
      ≡ (if stream == s then routed stream sent ++ (p ∷ []) else routed stream sent)
unfolding routed
routed-append stream s [] p = refl
routed-append stream s ((t, q) ∷ sent) p = ground (arith, routed-append stream s sent p)

-- On each stream are the frames of what was sent on it.
abbrev pub Written : List (ℕ × List ℕ) → Streams → Type 0
Written sent w = (stream : ℕ) → w stream ≡ frames (routed stream sent)

pub written-Written :
    (stream : ℕ) (sent : List (ℕ × List ℕ)) (p : List ℕ) (w w' : Streams)
    → ((t : ℕ) → w' t ≡ (if t == stream then w t ++ frame p else w t))
    → Written sent w
    → Written (sent ++ ((stream, p) ∷ [])) w'
written-Written stream sent p w w' kept written t =
    rw (kept t, routed-append t stream sent p, written t)
      (elim (Bool-cases (t == stream)) [
        | inl own ↦ rw own (sym (frames-append (routed t sent) p))
        | inr other ↦ rw other refl
      ])

-- The pump sends each packet on the stream of its place, and goes on to the next. P has the place, what
-- was sent before and the state.
pub record InTurn {S E : Type 0} (pump : Pump S E) (stream_at : ℕ → ℕ) (count : ℕ)
    (P : ℕ → List (ℕ × List ℕ) → S → Type 0) : Type 0 where
  pub deliver :
      (i : ℕ) (sent : List (ℕ × List ℕ)) (s : S) (p : List ℕ)
      → P i sent s
      → Fits p
      → (s' : S) × (pump.deliver s p ≡ some s')
        × P ((i + 1) % count) (sent ++ ((stream_at i, p) ∷ [])) s'
  pub drop : (i : ℕ) (sent : List (ℕ × List ℕ)) (s : S) → P i sent s → P i sent (pump.add_drop s)

module _ {S E : Type 0} (pump : Pump S E) (stream_at : ℕ → ℕ) (count : ℕ)
    (P : ℕ → List (ℕ × List ℕ) → S → Type 0) (turns : InTurn pump stream_at count P)
    (policy : PacketPolicy) where
  -- The loop has read all packets, and has sent those that the policy allows.
  abbrev pub Sends : ℕ → List (ℕ × List ℕ) → List (List ℕ) → LoopState S → Type 0
  Sends i sent packets st =
      (end : LoopState S) × (j : ℕ) × (device_loop pump policy (reads packets) st ≡ waiting end)
      × P j (sent ++ routes stream_at count i (allowed_packets policy packets)) end.shared

  pub loop-Sends :
      (i : ℕ) (sent : List (ℕ × List ℕ)) (packets : List (List ℕ)) (st : LoopState S)
      → P i sent st.shared
      → All Fits packets
      → Sends i sent packets st
  unfolding device_loop after_device_read after_policy after_deliver routes
  loop-Sends i sent [] st here fit = (st, i, refl, rw (append-nil sent) here)
  loop-Sends i sent (p ∷ packets) st here (fits, fit) =
      let not_empty : (length p == 0) ≡ false = ground (arith, fits.not_empty) in
      elim (Bool-cases (allow policy p)) [
        | inl allowed ↦
            let (s', sends, there) = turns.deliver i sent st.shared p here fits in
            let (end, j, waits, at_end) =
              loop-Sends ((i + 1) % count) (sent ++ ((stream_at i, p) ∷ [])) packets
                (record { shared = s'; retryable_read_errors = 0 }) there fit in
            (
              end,
              j,
              rw (not_empty, allowed, sends) waits,
              rw allowed (
                  rw
                    (append_assoc sent ((stream_at i, p) ∷ [])
                      (routes stream_at count ((i + 1) % count) (allowed_packets policy packets)))
                    at at_end),
            )
        | inr denied ↦
            let (end, j, waits, at_end) =
              loop-Sends i sent packets
                (record { shared = pump.add_drop st.shared; retryable_read_errors = 0 })
                (turns.drop i sent st.shared here) fit in
            (end, j, rw (not_empty, denied) waits, rw denied at_end)
      ]

pub allowed-Fits :
    (policy : PacketPolicy) (packets : List (List ℕ))
    → All Fits packets
    → All Fits (allowed_packets policy packets)
allowed-Fits policy [] fit = tt
allowed-Fits policy (p ∷ packets) (fits, fit) = elim (Bool-cases (allow policy p)) [
  | inl allowed ↦ rw allowed (fits, allowed-Fits policy packets fit)
  | inr denied ↦ rw denied (allowed-Fits policy packets fit)
]

pub length-allowed_packets :
    (policy : PacketPolicy) (packets : List (List ℕ))
    → length (allowed_packets policy packets) ≤ length packets
length-allowed_packets policy [] = omega arith
length-allowed_packets policy (p ∷ packets) = ground (arith, length-allowed_packets policy packets)

pub routed-Fits :
    (stream_at : ℕ → ℕ) (count stream i : ℕ) (packets : List (List ℕ))
    → All Fits packets
    → All Fits (routed stream (routes stream_at count i packets))
unfolding routed routes
routed-Fits stream_at count stream i [] fit = tt
routed-Fits stream_at count stream i (p ∷ packets) (fits, fit) =
    let rest = routed-Fits stream_at count stream ((i + 1) % count) packets fit in
    elim (Bool-cases (stream == stream_at i)) [
      | inl own ↦ rw own (fits, rest)
      | inr other ↦ rw other rest
    ]

pub length-routed :
    (stream_at : ℕ → ℕ) (count stream i : ℕ) (packets : List (List ℕ))
    → length (routed stream (routes stream_at count i packets)) ≤ length packets
unfolding routed routes
length-routed stream_at count stream i [] = omega arith
length-routed stream_at count stream i (p ∷ packets) =
    ground (arith, length-routed stream_at count stream ((i + 1) % count) packets)
