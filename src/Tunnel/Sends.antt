-- ===== src/Tunnel/Sends.antt =====
-- The client sends on its paths in turn.
use mvp_vpn_lite.Base.{
  ℕ, zero, suc, ◌+◌, ◌%◌, ◌<◌, ◌≡◌, refl, arith, ap, false, none, some, List, [], ◌∷◌, ◌++◌, ok,
  length, get_elem?, Option-cases, inl, inr, ◌==◌, if◌then◌else◌,
}
use native.Mathlib.Nat.{mod-eq_of_lt, mod-lt}
use mvp_vpn_lite.Framing.{write_frame}
use mvp_vpn_lite.Framing.RoundTrip.{frame, Fits}
use mvp_vpn_lite.Loop.{returned}
use mvp_vpn_lite.Base.Int.{pos}
use mvp_vpn_lite.Stats.{add_tx}
use mvp_vpn_lite.Client.Path.{ClientPath, is_cooling_down}
use mvp_vpn_lite.Client.PathSet.{ClientPathSet, cooling_at, next_path, mark_success}
use mvp_vpn_lite.Client.PathSet.Invariant.{IsValid, Distinct}
use mvp_vpn_lite.Client.PathSet.Selection.{next_path_selects}
use mvp_vpn_lite.Client.Send.{ClientShared, send_packet, after_next, after_frame}
use mvp_vpn_lite.Stats.{Counters, add_drop}
use mvp_vpn_lite.Client.PathSet.{new_client_path_set}
use mvp_vpn_lite.Client.Pump.{when_returned, send_pump}
use mvp_vpn_lite.Tunnel.{Streams, streams_write, client_stream, routed, new_client}
use mvp_vpn_lite.Tunnel.Routes.{write_frame-streams, Written, written-Written, InTurn}

-- No path is cooling down.
abbrev pub Ready : ClientPathSet → Type 0
Ready s = (id : ℕ) → s.health id ≡ none

Ready-cooling_at : (s : ClientPathSet) (now i : ℕ) → Ready s → cooling_at s now i ≡ false
unfolding is_cooling_down
Ready-cooling_at s now i ready = elim (Option-cases (get_elem? s.paths i)) [
  | inl missing ↦ rw (cooling_at, missing) refl
  | inr (p, found) ↦ rw (cooling_at, found, ready p.id) refl
]

next_path-Ready :
    (s : ClientPathSet) (now : ℕ)
    → IsValid s
    → 0 < length s.paths
    → Ready s
    → (p : ClientPath) × (get_elem? s.paths s.next ≡ some p)
      × (next_path s now ≡ (ok p, record s { next = (s.next + 1) % length s.paths }))
next_path-Ready s now v some_path ready =
    let (p, index, picked, at_index, found) = next_path_selects s now v some_path in
    let here : index ≡ s.next = elim found [
      | inl (zero, le, lt, e, warm, cool) ↦
          omega (arith, e, mod-eq_of_lt {n = s.next + 0} {m = length s.paths} (omega arith))
      | inl (suc j, le, lt, e, warm, cool) ↦
          absurd (cc (cool 0 (omega arith) (omega arith), Ready-cooling_at s now _ ready))
      | inr (e, cool) ↦ e
    ] in
    (p, rw here at at_index, rw here at picked)

module _ (paths : List ClientPath) (distinct : Distinct paths) (some_path : 0 < length paths) where
  -- The client with its paths and the index of the next, none of which has failed; on each stream are
  -- the frames of what was sent on it.
  pub record At (i : ℕ) (sent : List (ℕ × List ℕ)) (s : ClientShared Streams) : Type 0 where
    pub same : s.path_set.paths ≡ paths
    pub next : s.path_set.next ≡ i
    pub in_range : i < length paths
    pub ready : Ready s.path_set
    pub written : Written sent s.streams

  -- The client after a packet.
  abbrev sent_on : ClientPath → List ℕ → Streams → ClientShared Streams → ClientShared Streams
  sent_on path p w' s = record {
    path_set =
        mark_success (record s.path_set { next = (s.path_set.next + 1) % length s.path_set.paths })
          path.id;
    streams = w';
    counters = add_tx s.counters (pos (length p));
    clock_reads = s.clock_reads + 1;
  }

  sent_on-At :
      (i : ℕ) (sent : List (ℕ × List ℕ)) (s : ClientShared Streams) (p : List ℕ) (path : ClientPath)
      (w' : Streams)
      → At i sent s
      → get_elem? s.path_set.paths s.path_set.next ≡ some path
      → ((t : ℕ) → w' t ≡ (if t == path.stream then s.streams t ++ frame p else s.streams t))
      → At
          ((i + 1) % length paths)
          (sent ++ ((client_stream paths i, p) ∷ []))
          (sent_on path p w' s)
  unfolding mark_success
  sent_on-At i sent s p path w' here found kept =
      let at_index : get_elem? paths i ≡ some path = rw (here.same, here.next) at found in
      record {
        same = here.same;
        next = rw (here.same, here.next) refl;
        in_range = mod-lt (i + 1) {m = length paths} (omega arith);
        ready = λ id. ground (arith, here.ready id);
        written =
            rw (client_stream, at_index)
              (written-Written path.stream sent p s.streams w' kept here.written);
      }

  module _ (close : ClientPath → Streams → Streams) (clock : ℕ → ℕ) where
    send_packet-run :
        (s : ClientShared Streams) (p : List ℕ) (path : ClientPath) (w' : Streams)
        → next_path s.path_set (clock s.clock_reads)
          ≡ (ok path, record s.path_set { next = (s.path_set.next + 1) % length s.path_set.paths })
        → write_frame (streams_write path.stream) s.streams p ≡ (none, w')
        → send_packet streams_write close clock (length s.path_set.paths + 1) p s
          ≡ returned (sent_on path p w' s)
    unfolding send_packet after_next after_frame
    send_packet-run s p path w' picked wrote =
        let fuel : length s.path_set.paths + 1 ≡ suc (length s.path_set.paths) = omega arith in
        rw (fuel, picked, wrote) refl

    send_packet-At :
        (i : ℕ) (sent : List (ℕ × List ℕ)) (s : ClientShared Streams) (p : List ℕ)
        → At i sent s
        → Fits p
        → (s' : ClientShared Streams) × (send_packet streams_write close clock
              (length s.path_set.paths + 1)
              p
              s
            ≡ returned s')
          × At ((i + 1) % length paths) (sent ++ ((client_stream paths i, p) ∷ [])) s'
    send_packet-At i sent s p here fits =
        let valid : IsValid s.path_set = record {
          in_range = omega (arith, here.next, here.in_range, ap length here.same);
          distinct = rw (here.same) distinct;
        } in
        let (path, found, picked) =
          next_path-Ready s.path_set (clock s.clock_reads) valid
            (omega (arith, some_path, ap length here.same)) here.ready in
        let (w', wrote, kept) = write_frame-streams path.stream s.streams p fits in
        (
          sent_on path p w' s,
          send_packet-run s p path w' picked wrote,
          sent_on-At i sent s p path w' here found kept,
        )

    pub send-InTurn :
        InTurn (send_pump streams_write close clock) (client_stream paths) (length paths) At
    unfolding when_returned add_drop
    send-InTurn = record {
      deliver = λ i sent s p here fits.
          let (s', sends, there) = send_packet-At i sent s p here fits in
          (s', rw sends refl, there);
      drop = λ i sent s here. record {
        same = here.same;
        next = here.next;
        in_range = here.in_range;
        ready = here.ready;
        written = here.written;
      };
    }

  pub new_client-At :
      (c : Counters) (clock_reads : ℕ) → At 0 [] (new_client paths c clock_reads).shared
  unfolding new_client_path_set routed
  new_client-At c clock_reads = record {
    same = refl;
    next = refl;
    in_range = some_path;
    ready = λ id. refl;
    written = λ stream. refl;
  }
