-- ===== src/Client/Send/Total.antt =====
-- The sending of one packet ends, and how.
use mvp_vpn_lite.Base.{
  ℕ, zero, suc, ◌+◌, ◌%◌, ◌^◌, ◌<◌, ◌≡◌, ◌⊎◌, inl, inr, refl, arith, Option, Result, none, some,
  List, [], ◌∷◌, length, get_elem?,
}
use mathlib.Core.Path.{subst}
use native.Mathlib.Decide.{dec_lt}
use mvp_vpn_lite.Io.{Write}
use mvp_vpn_lite.Framing.{FrameError, write_frame}
use mvp_vpn_lite.Stats.Flow.{handled}
use mvp_vpn_lite.Stats.{Counters, add_tx, add_drop, add_error}
use mvp_vpn_lite.Client.Path.{ClientPath}
use mvp_vpn_lite.Client.PathSet.{ClientPathSet}
use mvp_vpn_lite.Client.PathSet.Invariant.{IsValid, next_path-IsValid}
use mvp_vpn_lite.Client.PathSet.Removal.{mark_success-IsValid, failed_removed}
use mvp_vpn_lite.Client.PathSet.Selection.{next_path_selects, next_path_empty}
use mvp_vpn_lite.Loop.{Run, returned}
use mvp_vpn_lite.Client.Send.{ClientShared, after_remove, after_frame, after_next, send_packet}

-- How the sending of a packet ends: it is sent and nothing dropped, or it is dropped and no path is left.
pub record Handled {W : Type 0} (start : Counters) (end : ClientShared W) : Type 0 where
  pub valid : IsValid end.path_set
  pub counted : handled end.counters ≡ (handled start + 1) % 2 ^ 64
  pub sent_or_alone :
      (end.counters.dropped_packets ≡ start.dropped_packets) ⊎ (end.path_set.paths ≡ [])

module _ {W : Type 0} (write : ℕ → Write W) (close : ClientPath → W → W) (clock : ℕ → ℕ)
    (packet : List ℕ) where
  abbrev Ends : Counters → Run (ClientShared W) → Type 0
  Ends start run = (end : ClientShared W) × (run ≡ returned end) × Handled start end

  after_frame-Ends :
      (again : ClientShared W → Run (ClientShared W)) (s : ClientShared W) (path : ClientPath)
      (i : ℕ) (result : Option FrameError × W)
      → IsValid s.path_set
      → get_elem? s.path_set.paths i ≡ some path
      → ((next : ClientShared W)
          → IsValid next.path_set
          → length s.path_set.paths ≡ suc (length next.path_set.paths)
          → next.counters ≡ add_error s.counters
          → Ends s.counters (again next))
      → Ends s.counters (after_frame write close clock again s packet path result)
  unfolding after_frame after_remove add_tx
  after_frame-Ends again s path i (none, w) v at h = (
    _,
    refl,
    record {
      valid = mark_success-IsValid s.path_set path.id v;
      counted = omega arith;
      sent_or_alone = inl refl;
    },
  )
  after_frame-Ends again s path i (some e, w) v at h =
      let (old, set, removed, one_less, valid) =
        failed_removed s.path_set i (clock s.clock_reads) path v at in
      rw removed (
        h
          (record s {
            path_set = set;
            streams = close old w;
            counters = add_error s.counters;
            clock_reads = s.clock_reads + 1;
          })
          valid one_less refl)

  -- From the rest of the attempts to all of them.
  Handled-later :
      (c : Counters) (next end : ClientShared W)
      → next.counters ≡ add_error c
      → Handled next.counters end
      → Handled c end
  unfolding add_error
  Handled-later c next end e h = record {
    valid = h.valid;
    counted = rw e at h.counted;
    sent_or_alone = rw e at h.sent_or_alone;
  }

  no_path : (paths : List ClientPath) → length paths ≡ 0 → paths ≡ []
  no_path [] e = refl
  no_path (p ∷ rest) e = absurd (omega arith)

  -- From a valid path set, the sending of a packet ends, at the latest after one attempt on each path
  -- and one more turn: the packet is counted once, as sent or as dropped, and it is dropped only when
  -- no path is left. The set of the paths stays valid.
  pub send_packet_total :
      (fuel : ℕ) (s : ClientShared W)
      → IsValid s.path_set
      → length s.path_set.paths < fuel
      → (end : ClientShared W) × (send_packet write close clock fuel packet s ≡ returned end)
        × Handled s.counters end
  unfolding send_packet after_next add_drop
  send_packet_total zero s v lt = absurd (omega arith)
  send_packet_total (suc fuel) s v lt = elim (dec_lt 0 (length s.path_set.paths)) [
    | no none_left ↦
        let empty = no_path s.path_set.paths (omega arith) in
        rw (next_path_empty s.path_set (clock s.clock_reads) empty)
          (_, refl, record { valid = v; counted = omega arith; sent_or_alone = inr empty })
    | yes some_path ↦
        let (p, index, picked, at, found) =
          next_path_selects s.path_set (clock s.clock_reads) v some_path in
        let set : ClientPathSet = record s.path_set {
          next = (index + 1) % length s.path_set.paths;
        } in
        let set_valid =
          subst (λ (r : Result (Unit {0}) ClientPath × ClientPathSet). IsValid r.1) picked
            (next_path-IsValid s.path_set (clock s.clock_reads) v) in
        rw picked (
          after_frame-Ends (send_packet write close clock fuel packet)
            (record s { path_set = set; clock_reads = s.clock_reads + 1 }) p index
            (write_frame (write p.stream) s.streams packet) set_valid at
            λ next valid one_less same.
              let (end, e, handled) = send_packet_total fuel next valid (omega arith) in
              (end, e, Handled-later s.counters next end same handled))
  ]
