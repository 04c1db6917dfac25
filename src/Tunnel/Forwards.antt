-- ===== src/Tunnel/Forwards.antt =====
-- The server sends on its session's paths in turn.
use mvp_vpn_lite.Base.{
  ℕ, ◌+◌, ◌%◌, ◌<◌, ◌≡◌, refl, arith, ap, false, none, some, List, [], ◌∷◌, ◌++◌, length, get_elem?,
  get_elem?_lt, ◌==◌,
}
use native.Mathlib.Nat.{mod-eq_of_lt, mod-lt}
use mvp_vpn_lite.Base.Int.{pos}
use mvp_vpn_lite.Framing.{write_frame}
use mvp_vpn_lite.Framing.RoundTrip.{Fits}
use mvp_vpn_lite.Stats.{Counters, add_tx, add_drop}
use mvp_vpn_lite.Server.Session.{ServerPath, take_path}
use mvp_vpn_lite.Server.Forward.{
  Shared, after_write_frame, write_on, write_next_path, after_write, forward_pump,
}
use mvp_vpn_lite.Tunnel.{Streams, streams_write, server_stream, routed, new_server}
use mvp_vpn_lite.Tunnel.Routes.{write_frame-streams, Written, written-Written, InTurn}

module _ (paths : List ServerPath) (some_path : 0 < length paths) where
  -- The session with its paths and the index of the next; on each stream are the frames of what was
  -- sent on it.
  pub record At (i : ℕ) (sent : List (ℕ × List ℕ)) (s : Shared Streams) : Type 0 where
    pub same : s.session.paths ≡ paths
    pub next : s.session.next_path ≡ i
    pub in_range : i < length paths
    pub written : Written sent s.streams

  -- The session after a packet.
  abbrev sent_on : List ℕ → Streams → Shared Streams → Shared Streams
  sent_on p w' s = record {
    session = record s.session { next_path = (s.session.next_path + 1) % length s.session.paths };
    streams = w';
    counters = add_tx s.counters (pos (length p));
  }

  deliver-run :
      (i : ℕ) (s : Shared Streams) (p : List ℕ) (path : ServerPath) (w' : Streams)
      → s.session.paths ≡ paths
      → s.session.next_path ≡ i
      → i < length paths
      → get_elem? paths i ≡ some path
      → write_frame (streams_write path.stream) s.streams p ≡ (none, w')
      → (forward_pump streams_write).deliver s p ≡ some (sent_on p w' s)
  unfolding after_write write_next_path write_on after_write_frame take_path
  deliver-run i s p path w' same next in_range found wrote =
      let some_paths : (length s.session.paths == 0) ≡ false = ground (arith, ap length same) in
      let place : s.session.next_path % length s.session.paths ≡ i =
        rw (same, next) (mod-eq_of_lt {n = i} {m = length paths} in_range) in
      rw (some_paths, place) (rw same (rw (found, wrote) refl))

  deliver-At :
      (i : ℕ) (sent : List (ℕ × List ℕ)) (s : Shared Streams) (p : List ℕ)
      → At i sent s
      → Fits p
      → (s' : Shared Streams) × ((forward_pump streams_write).deliver s p ≡ some s')
        × At ((i + 1) % length paths) (sent ++ ((server_stream paths i, p) ∷ [])) s'
  deliver-At i sent s p here fits =
      let (path, found) = get_elem?_lt paths i here.in_range in
      let (w', wrote, kept) = write_frame-streams path.stream s.streams p fits in
      (
        sent_on p w' s,
        deliver-run i s p path w' here.same here.next here.in_range found wrote,
        record {
          same = here.same;
          next = rw (here.same, here.next) refl;
          in_range = mod-lt (i + 1) {m = length paths} (omega arith);
          written =
              rw (server_stream, found)
                (written-Written path.stream sent p s.streams w' kept here.written);
        },
      )

  pub forward-InTurn : InTurn (forward_pump streams_write) (server_stream paths) (length paths) At
  unfolding add_drop
  forward-InTurn = record {
    deliver = deliver-At;
    drop = λ i sent s here. record {
      same = here.same;
      next = here.next;
      in_range = here.in_range;
      written = here.written;
    };
  }

  pub new_server-At : (c : Counters) → At 0 [] (new_server paths c).shared
  unfolding routed
  new_server-At c = record {
    same = refl;
    next = refl;
    in_range = some_path;
    written = λ stream. refl;
  }
