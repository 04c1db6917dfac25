-- ===== src/Client/TunRun/Goroutines.antt =====
-- What the goroutines of pumpTUN leave open: the loop that reconnects a path, the sending of a packet,
-- and a receiving loop that ends.
use mvp_vpn_lite.Base.{
  ℕ, zero, suc, ◌+◌, ◌≡◌, refl, ◌∙◌, Bool, Option, none, some, List, Result, ok, err, panic,
  Bool-cases, inl, inr,
}
use mvp_vpn_lite.Base.Int.{ℤ}
use mvp_vpn_lite.Framing.{FrameError, write_frame}
use mvp_vpn_lite.Framing.Progress.{write_frame_keeps}
use mvp_vpn_lite.Loop.{Run, returned, crashed, unfinished, Outcome, waiting, stopped, gave_up}
use mvp_vpn_lite.Stats.{add_error}
use mvp_vpn_lite.Client.Path.{ClientPath}
use mvp_vpn_lite.Client.PathSet.{
  ClientPathSet, next_path, add, remove, mark_success, mark_failure, has_path_id,
}
use mvp_vpn_lite.Client.PathSet.Contents.{next_path-paths, mark_success-paths, mark_failure-paths}
use mvp_vpn_lite.Client.Demo.{ClientStreams}
use mvp_vpn_lite.Client.Dial.{
  Network, ClientPathSpec, DialError, dial_client_path, close_client_path,
}
use mvp_vpn_lite.Client.Dial.Balance.{Counting, DialEnds, dial_ends}
use mvp_vpn_lite.Client.Reconnect.{
  Turn, ReconnectState, sleep, after_reconnect_dial, reconnect_turn, close_replaced,
}
use mvp_vpn_lite.Client.Receive.{stop_receiving}
use mvp_vpn_lite.Client.Run.Safety.{Steady}
use mvp_vpn_lite.Client.Send.{ClientShared, after_remove, after_frame, after_next, send_packet}
use mvp_vpn_lite.Client.TunRun.Changes.{Held, HeldAfter, remove-HeldAfter, add-HeldAfter}

module _ {W : Type 0} (net : Network W) (io : ClientStreams W) (open_conns : W → List ℕ)
    (laws : Counting net open_conns) (steady : Steady io open_conns) (base : List ℕ) where
  same :
      (s t : ClientPathSet) (w w' : W)
      → Held net open_conns laws base s w
      → t.paths ≡ s.paths
      → open_conns w' ≡ open_conns w
      → Held net open_conns laws base t w'
  same s t w w' h paths opens = record {
    connected = rw paths h.connected;
    apart = rw (paths, opens) h.apart;
  }

  -- The end of a turn.
  abbrev pub Turned : Outcome (ReconnectState W) → Type 0
  Turned (waiting st) = Held net open_conns laws base st.path_set st.network
  Turned (stopped st) = Held net open_conns laws base st.path_set st.network
  Turned (gave_up e st) = Unit
  Turned Outcome.crashed = Unit

  sleep-Turned :
      (slept : Bool) (delay : ℤ) (st : ReconnectState W)
      → Held net open_conns laws base st.path_set st.network
      → Turned (sleep net waiting slept delay st)
  unfolding sleep
  sleep-Turned slept delay st h = elim (Bool-cases slept) [
    | inl whole ↦ rw whole h
    | inr cut ↦ rw cut h
  ]

  replaced-Held :
      (changed : Option ClientPath × ClientPathSet) (w : W)
      → HeldAfter net open_conns laws base changed w
      → Held net open_conns laws base changed.1 (close_replaced net changed.0 w)
  replaced-Held (none, set) w h = h
  replaced-Held (some old, set) w h = h

  dial-Turned :
      (t : Turn) (st : ReconnectState W) (result : Result DialError ClientPath × W)
      → DialEnds net open_conns laws (open_conns st.network) result
      → Held net open_conns laws base st.path_set st.network
      → Turned (after_reconnect_dial net waiting t st result)
  unfolding after_reconnect_dial
  dial-Turned t st (ok path, w) (ne, new, e) h =
      let after = add-HeldAfter net open_conns laws base st.path_set path st.network w h ne new e in
      replaced-Held (add st.path_set path) w after
  dial-Turned t st (err x, w) e h =
      let later = same st.path_set st.path_set st.network w h refl e in
      elim (Bool-cases t.ctx_done_after) [
        | inl done ↦ rw done later
        | inr going ↦ rw going (sleep-Turned t.slept _ _ later)
      ]
  dial-Turned t st (panic, w) e h = tt

  pub turn-Turned :
      (spec : ClientPathSpec) (min_delay : ℤ) (t : Turn) (st : ReconnectState W)
      → Held net open_conns laws base st.path_set st.network
      → Turned (reconnect_turn net spec min_delay waiting t st)
  unfolding reconnect_turn
  turn-Turned spec min_delay t st h = elim (Bool-cases t.ctx_done) [
    | inl done ↦ rw done h
    | inr going ↦ elim (Bool-cases (has_path_id st.path_set spec.id)) [
      | inl there ↦ rw (going, there) (sleep-Turned t.slept min_delay st h)
      | inr missing ↦
          rw (going, missing)
            (dial-Turned t st (dial_client_path net spec st.network)
              (dial_ends net open_conns laws spec st.network) h)
    ]
  ]

  -- The end of the sending of a packet.
  abbrev pub Sent : Run (ClientShared W) → Type 0
  Sent (returned s) = Held net open_conns laws base s.path_set s.streams
  Sent crashed = Unit
  Sent unfinished = Unit

  abbrev Sends : (ClientShared W → Run (ClientShared W)) → Type 0
  Sends again =
      (s : ClientShared W) → Held net open_conns laws base s.path_set s.streams → Sent (again s)

  remove-Sent :
      (clock : ℕ → ℕ) (again : ClientShared W → Run (ClientShared W)) (s : ClientShared W)
      (changed : Option ClientPath × ClientPathSet)
      → Sends again
      → HeldAfter net open_conns laws base changed s.streams
      → Sent (after_remove io.write (close_client_path net) clock again s changed)
  unfolding after_remove
  remove-Sent clock again s (none, set) go h = go (record s { path_set = set }) h
  remove-Sent clock again s (some old, set) go h =
      go (record s { path_set = set; streams = close_client_path net old s.streams }) h

  frame-Sent :
      (clock : ℕ → ℕ) (again : ClientShared W → Run (ClientShared W)) (s : ClientShared W)
      (packet : List ℕ) (path : ClientPath) (result : Option FrameError × W)
      → Sends again
      → Held net open_conns laws base s.path_set result.1
      → Sent (after_frame io.write (close_client_path net) clock again s packet path result)
  unfolding after_frame
  frame-Sent clock again s packet path (none, w) go h =
      same s.path_set (mark_success s.path_set path.id) w w h
        (mark_success-paths s.path_set path.id) refl
  frame-Sent clock again s packet path (some e, w) go h =
      let set = (mark_failure s.path_set path.id (clock s.clock_reads)).1 in
      remove-Sent clock again
        (record s { streams = w; counters = add_error s.counters; clock_reads = s.clock_reads + 1 })
        (remove set path.stream) go
        (remove-HeldAfter net open_conns laws base set path.stream w (
          same s.path_set set w w h (mark_failure-paths s.path_set path.id (clock s.clock_reads))
            refl))

  next-Sent :
      (clock : ℕ → ℕ) (again : ClientShared W → Run (ClientShared W)) (s : ClientShared W)
      (packet : List ℕ) (result : Result (Unit {0}) ClientPath × ClientPathSet)
      → Sends again
      → Held net open_conns laws base result.1 s.streams
      → Sent (after_next io.write (close_client_path net) clock again s packet result)
  unfolding after_next
  next-Sent clock again s packet (err _, set) go h = h
  next-Sent clock again s packet (panic, set) go h = tt
  next-Sent clock again s packet (ok path, set) go h =
      frame-Sent clock again (record s { path_set = set; clock_reads = s.clock_reads + 1 }) packet
        path (write_frame (io.write path.stream) s.streams packet) go
        (same set set s.streams (write_frame (io.write path.stream) s.streams packet).1 h refl (
          write_frame_keeps (io.write path.stream) (λ w. open_conns w ≡ open_conns s.streams)
            (λ w bytes e. steady.write_keeps path.stream w bytes ∙ e) s.streams packet refl))

  pub packet-Sent :
      (clock : ℕ → ℕ) (fuel : ℕ) (packet : List ℕ)
      → Sends (send_packet io.write (close_client_path net) clock fuel packet)
  unfolding send_packet
  packet-Sent clock zero packet s h = tt
  packet-Sent clock (suc fuel) packet s h =
      next-Sent clock (send_packet io.write (close_client_path net) clock fuel packet) s packet
        (next_path s.path_set (clock s.clock_reads)) (packet-Sent clock fuel packet)
        (same s.path_set (next_path s.path_set (clock s.clock_reads)).1 s.streams s.streams h
          (next_path-paths s.path_set (clock s.clock_reads)) refl)

  stopped-Held :
      (changed : Option ClientPath × ClientPathSet) (w : W)
      → HeldAfter net open_conns laws base changed w
      → Held net open_conns laws base changed.1
          (elim changed.0 [ none ↦ w | some p ↦ close_client_path net p w ])
  stopped-Held (none, set) w h = h
  stopped-Held (some p, set) w h = h

  -- A receiving loop that ends.
  pub stop_receiving-Held :
      (path : ClientPath) (s : ClientPathSet) (w : W)
      → Held net open_conns laws base s w
      → let (set, w') = stop_receiving (close_client_path net) path s w in
        Held net open_conns laws base set w'
  unfolding stop_receiving
  stop_receiving-Held path s w h =
      stopped-Held (remove s path.stream) w
        (remove-HeldAfter net open_conns laws base s path.stream w h)
