-- ===== src/DemoRun/Wire.antt =====
-- Streams whose other end is the server's demo responder, which has answered all that was sent
-- whenever the client reads.
use mathlib.Core.List.{append_assoc, append-nil}
use mathlib.Core.Path.{subst}
use mvp_vpn_lite.Base.{
  ℕ, ◌+◌, ◌-◌, ◌≤◌, ◌≡◌, refl, ap, sym, arith, none, List, [], ◌∷◌, ◌++◌, ok, length, length-append,
  drop, drop-append, All, All-append, if◌then◌else◌, ◌==◌, ==_refl, ==→eq, Bool-cases, inl, inr,
}
use mvp_vpn_lite.Net.{Ip}
use mvp_vpn_lite.Io.{other_error}
use mvp_vpn_lite.Packet.Echo.{build_icmp_echo_reply}
use mvp_vpn_lite.Packet.Echo.Total.{length-build_reply}
use mvp_vpn_lite.Framing.{put_uint32, write_frame, read_frame}
use mvp_vpn_lite.Framing.RoundTrip.{frame, Fits, buffer_write, read_frame-frame}
use mvp_vpn_lite.Stats.{no_counts}
use mvp_vpn_lite.Loop.{Run, returned}
use mvp_vpn_lite.Server.Demo.{StreamState, handle_quic_stream}
use mvp_vpn_lite.Server.Demo.Answers.{frames, answer, answers, at_stream, handle_answers}
use mvp_vpn_lite.Client.Demo.{ClientStreams}

-- What the client has sent, and how many bytes of the answers it has read.
pub record Wire : Type 0 where
  pub sent : List ℕ
  pub consumed : ℕ

abbrev pub put : (ℕ → Wire) → ℕ → Wire → ℕ → Wire
put w stream x j = if j == stream then x else w j

abbrev written : Run (StreamState (List ℕ)) → List ℕ
written (returned st) = st.writer
written _ = []

module _ (virtual_ip client_ip : Ip) where
  -- What the responder has written when it has handled these bytes.
  pub replies : List ℕ → List ℕ
  replies sent = written (
      handle_quic_stream buffer_write virtual_ip client_ip (length sent + 1)
        (at_stream sent [] no_counts))

  abbrev pub served : ClientStreams (ℕ → Wire)
  served = record {
    write = λ stream w bytes.
        (none, put w stream (record (w stream) { sent = (w stream).sent ++ bytes }));
    reader = λ stream w. record {
      pending = drop (w stream).consumed (replies (w stream).sent);
      end = other_error 0;
    };
    after_read = λ stream w r.
        put w stream
          (record (w stream) { consumed = length (replies (w stream).sent) - length r.pending });
    set_deadline = λ stream on w. (none, w);
  }

  -- The client has sent these packets, and read all the answers.
  pub record Answered (x : Wire) (packets : List (List ℕ)) : Type 0 where
    pub fit : All Fits packets
    pub sent_all : x.sent ≡ frames packets
    pub read_all : x.consumed ≡ length (answers virtual_ip client_ip packets)

  length-frames : (packets : List (List ℕ)) → length packets ≤ length (frames packets)
  length-frames [] = omega arith
  length-frames (p ∷ ps) = omega (arith, length-frames ps, length-append p (frames ps))

  pub replies-frames :
      (packets : List (List ℕ))
      → All Fits packets
      → replies (frames packets) ≡ answers virtual_ip client_ip packets
  unfolding replies
  replies-frames packets fit = ap written (
      handle_answers virtual_ip client_ip (length (frames packets) + 1) packets [] no_counts fit
        (omega (arith, length-frames packets)))

  frames-append : (ps : List (List ℕ)) (p : List ℕ) → frames (ps ++ (p ∷ [])) ≡ frames ps ++ frame p
  frames-append [] p = append-nil (frame p)
  frames-append (q ∷ ps) p =
      rw (frames-append ps p) (sym (append_assoc (frame q) (frames ps) (frame p)))

  answers-append :
      (ps : List (List ℕ)) (p : List ℕ)
      → answers virtual_ip client_ip (ps ++ (p ∷ []))
        ≡ answers virtual_ip client_ip ps ++ answer (build_icmp_echo_reply p virtual_ip client_ip)
  answers-append [] p = append-nil (answer (build_icmp_echo_reply p virtual_ip client_ip))
  answers-append (q ∷ ps) p =
      let built = answer (build_icmp_echo_reply q virtual_ip client_ip) in
      rw (answers-append ps p) (
        sym (
          append_assoc built (answers virtual_ip client_ip ps)
            (answer (build_icmp_echo_reply p virtual_ip client_ip))))

  -- The stream after a packet is written to it.
  abbrev pub after_request : (ℕ → Wire) → ℕ → List ℕ → ℕ → Wire
  after_request w stream packet =
      let sent = (w stream).sent in
      let header = put w stream (record (w stream) { sent = sent ++ put_uint32 (length packet) }) in
      put header stream (record (header stream) { sent = (header stream).sent ++ packet })

  pub write_frame-served :
      (w : ℕ → Wire) (stream : ℕ) (packet : List ℕ)
      → Fits packet
      → write_frame (served.write stream) w packet ≡ (none, after_request w stream packet)
  unfolding write_frame
  write_frame-served w stream packet f = ground arith

  sent_after :
      (x : Wire) (packet : List ℕ) (packets : List (List ℕ))
      → Answered x packets
      → (x.sent ++ put_uint32 (length packet)) ++ packet ≡ frames (packets ++ (packet ∷ []))
  sent_after x packet packets h =
      rw
        (
          h.sent_all,
          frames-append packets packet,
          append_assoc (frames packets) (put_uint32 (length packet)) packet,
        )
        refl

  -- The reply that comes back.
  pub read_frame-served :
      (w : ℕ → Wire) (stream : ℕ) (packet reply : List ℕ) (packets : List (List ℕ))
      → Answered (w stream) packets
      → Fits packet
      → build_icmp_echo_reply packet virtual_ip client_ip ≡ ok reply
      → read_frame (served.reader stream (after_request w stream packet))
        ≡ (ok reply, record { pending = []; end = other_error 0 })
  read_frame-served w stream packet reply packets h f built =
      let (least, most) = length-build_reply packet reply virtual_ip client_ip built in
      let earlier = answers virtual_ip client_ip packets in
      rw
        (
          ==_refl stream,
          sent_after (w stream) packet packets h,
          h.read_all,
          replies-frames (packets ++ (packet ∷ []))
              (All-append Fits packets (packet ∷ []) h.fit (f, tt)),
          answers-append packets packet,
          built,
          drop-append (length earlier) earlier (frame reply) refl,
        )
        (rw (append-nil reply) at (read_frame-frame reply [] (other_error 0) (omega arith)))

  -- Every stream has been answered, and its answers read.
  abbrev pub Idle : (ℕ → Wire) → Type 0
  Idle w = (stream : ℕ) → (packets : List (List ℕ)) × Answered (w stream) packets

  abbrev pub after_reply : (ℕ → Wire) → ℕ → List ℕ → ℕ → Wire
  after_reply w stream packet =
      served.after_read stream (after_request w stream packet)
        (record { pending = []; end = other_error 0 })

  after_reply-at :
      (w : ℕ → Wire) (stream : ℕ) (packet : List ℕ) (packets : List (List ℕ))
      → Answered (w stream) packets
      → Fits packet
      → Answered (after_reply w stream packet stream) (packets ++ (packet ∷ []))
  after_reply-at w stream packet packets h f =
      let fit = All-append Fits packets (packet ∷ []) h.fit (f, tt) in
      rw
        (
          ==_refl stream,
          sent_after (w stream) packet packets h,
          replies-frames (packets ++ (packet ∷ [])) fit,
        )
        (record { fit = fit; sent_all = refl; read_all = omega arith })

  -- The exchange of one packet leaves every stream so.
  pub after_reply-Idle :
      (w : ℕ → Wire) (stream : ℕ) (packet : List ℕ)
      → Idle w
      → Fits packet
      → Idle (after_reply w stream packet)
  after_reply-Idle w stream packet h f j = elim (Bool-cases (j == stream)) [
    | inl same ↦
        let (packets, a) = h stream in
        (
          packets ++ (packet ∷ []),
          subst (λ i. Answered (after_reply w stream packet i) (packets ++ (packet ∷ [])))
              (sym (==→eq j stream same)) (after_reply-at w stream packet packets a f),
        )
    | inr other ↦ rw other (h j)
  ]
