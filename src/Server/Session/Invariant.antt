-- ===== src/Server/Session/Invariant.antt =====
-- What any interleaving of the goroutines leaves of the server's paths.
pub mod Leaving
use mvp_vpn_lite.Base.{
  ℕ, ◌+◌, ◌-◌, ◌≤◌, ◌<◌, ◌≡◌, ◌≢◌, arith, refl, sym, ap, false, none, some, List, [], ◌∷◌, length,
  All, Bool-cases, Option-cases, inl, inr, ==→eq, ◌==◌, if◌then◌else◌,
}
use mathlib.Core.Path.{subst}
use native.Mathlib.Nat.{mod-lt}
use mvp_vpn_lite.Server.Session.{
  ServerPath, ServerTunSession, new_server_tun_session, append_path, add_path, without_stream,
  next_within, remove_path, take_path,
}

-- One call of a method that changes the session.
pub data Op : Type 0 where
  joins : ℕ → ℕ → Op
  leaves : ℕ → Op
  takes : Op

pub step : ServerTunSession → Op → ServerTunSession
step s (joins path_id stream) = add_path s path_id stream
step s (leaves stream) = remove_path s stream
step s takes = (take_path s).1

pub run : ServerTunSession → List Op → ServerTunSession
run s [] = s
run s (op ∷ ops) = run (step s op) ops

-- The paths without those of a stream.
abbrev pub others : ℕ → List ServerPath → List ServerPath
others stream [] = []
others stream (p ∷ rest) =
    let rest' = others stream rest in if p.stream == stream then rest' else p ∷ rest'

-- The abstract view: the paths in the order in which they joined, less those that left.
pub joined : List ServerPath → List Op → List ServerPath
joined paths [] = paths
joined paths (joins path_id stream ∷ ops) =
    joined (append_path paths (record { id = path_id; stream = stream })) ops
joined paths (leaves stream ∷ ops) = joined (others stream paths) ops
joined paths (takes ∷ ops) = joined paths ops

abbrev pub Avoids : ℕ → List ServerPath → Type 0
Avoids stream = All (λ (p : ServerPath). p.stream ≢ stream)

abbrev pub Distinct : List ServerPath → Type 0
Distinct [] = Unit
Distinct (p ∷ rest) = Avoids p.stream rest × Distinct rest

-- Every stream that joins is new: no path in the session has it.
unfoldable pub Fresh : List ServerPath → List Op → Type 0
Fresh paths [] = Unit
Fresh paths (joins path_id stream ∷ ops) =
    Avoids stream paths × Fresh (append_path paths (record { id = path_id; stream = stream })) ops
Fresh paths (leaves stream ∷ ops) = Fresh (others stream paths) ops
Fresh paths (takes ∷ ops) = Fresh paths ops

length-append_path :
    (paths : List ServerPath) (p : ServerPath) → length (append_path paths p) ≡ length paths + 1
unfolding append_path
length-append_path [] p = omega arith
length-append_path (q ∷ rest) p = omega (arith, length-append_path rest p)

append_path-Avoids :
    (stream : ℕ) (paths : List ServerPath) (p : ServerPath)
    → Avoids stream paths
    → p.stream ≢ stream
    → Avoids stream (append_path paths p)
unfolding append_path
append_path-Avoids stream [] p h ne = (ne, tt)
append_path-Avoids stream (q ∷ rest) p h ne = (h.0, append_path-Avoids stream rest p h.1 ne)

pub append_path-Distinct :
    (paths : List ServerPath) (p : ServerPath)
    → Distinct paths
    → Avoids p.stream paths
    → Distinct (append_path paths p)
unfolding append_path
append_path-Distinct [] p d a = (tt, tt)
append_path-Distinct (q ∷ rest) p d a =
    (append_path-Avoids q.stream rest p d.0 (λ e. a.0 (sym e)), append_path-Distinct rest p d.1 a.1)

others-Avoids :
    (stream other : ℕ) (paths : List ServerPath)
    → Avoids other paths
    → Avoids other (others stream paths)
others-Avoids stream other [] h = tt
others-Avoids stream other (p ∷ rest) h = elim (Bool-cases (p.stream == stream)) [
  | inl same ↦ rw same (others-Avoids stream other rest h.1)
  | inr differ ↦ rw differ (h.0, others-Avoids stream other rest h.1)
]

pub others-Distinct :
    (stream : ℕ) (paths : List ServerPath) → Distinct paths → Distinct (others stream paths)
others-Distinct stream [] d = tt
others-Distinct stream (p ∷ rest) d = elim (Bool-cases (p.stream == stream)) [
  | inl same ↦ rw same (others-Distinct stream rest d.1)
  | inr differ ↦ rw differ (others-Avoids stream p.stream rest d.0, others-Distinct stream rest d.1)
]

others_absent :
    (stream : ℕ) (paths : List ServerPath) → Avoids stream paths → others stream paths ≡ paths
others_absent stream [] h = refl
others_absent stream (p ∷ rest) h = ground (arith, others_absent stream rest h.1)

-- What `removePath` finds.
without_none :
    (stream : ℕ) (paths : List ServerPath)
    → without_stream stream paths ≡ none
    → Avoids stream paths
unfolding without_stream
without_none stream [] e = tt
without_none stream (p ∷ rest) e = ground (arith, without_none stream rest)

without_some :
    (stream : ℕ) (paths rest : List ServerPath)
    → Distinct paths
    → without_stream stream paths ≡ some rest
    → others stream paths ≡ rest
unfolding without_stream
without_some stream [] rest d e = absurd (cc e)
without_some stream (p ∷ paths) rest d e = elim (Bool-cases (p.stream == stream)) [
  | inl same ↦
      let alone = subst (λ i. Avoids i paths) (==→eq p.stream stream same) d.0 in
      ground (arith, others_absent stream paths alone)
  | inr differ ↦ elim (Option-cases (without_stream stream paths)) [
    | inl missing ↦ absurd (ground arith)
    | inr (paths', found) ↦ ground (arith, without_some stream paths paths' d.1 found)
  ]
]

-- The session holds these paths, and its index is one of them (0 if there is none).
pub record IsAt (paths : List ServerPath) (s : ServerTunSession) : Type 0 where
  pub same_paths : s.paths ≡ paths
  pub in_range : s.next_path ≤ length paths - 1

add_path-IsAt :
    (paths : List ServerPath) (s : ServerTunSession) (path_id stream : ℕ)
    → IsAt paths s
    → IsAt
        (append_path paths (record { id = path_id; stream = stream }))
        (add_path s path_id stream)
unfolding add_path
add_path-IsAt paths s path_id stream h = record {
  same_paths = ap (λ ps. append_path ps (record { id = path_id; stream = stream })) h.same_paths;
  in_range =
      omega
        (arith, h.in_range, length-append_path paths (record { id = path_id; stream = stream }));
}

next_within_le : (next count : ℕ) → next_within next count ≤ count - 1
next_within_le next count = ground arith

pub remove_path-IsAt :
    (paths : List ServerPath) (s : ServerTunSession) (stream : ℕ)
    → Distinct paths
    → IsAt paths s
    → IsAt (others stream paths) (remove_path s stream)
unfolding remove_path
remove_path-IsAt paths s stream d h = elim (Option-cases (without_stream stream paths)) [
  | inl missing ↦
      rw
        (
          h.same_paths,
          missing,
          remove_path,
          others_absent stream paths (without_none stream paths missing),
        )
        h
  | inr (rest, found) ↦
      rw (h.same_paths, found, remove_path, without_some stream paths rest d found)
        (record { same_paths = refl; in_range = next_within_le s.next_path (length rest) })
]

positive : (paths : List ServerPath) → (length paths == 0) ≡ false → 0 < length paths
positive paths h = ground arith

take_path-IsAt :
    (paths : List ServerPath) (s : ServerTunSession) → IsAt paths s → IsAt paths (take_path s).1
unfolding take_path
take_path-IsAt paths s h = elim (Bool-cases (length paths == 0)) [
  | inl empty ↦ rw (h.same_paths, empty) (record { same_paths = refl; in_range = h.in_range })
  | inr some_path ↦
      rw (h.same_paths, some_path)
        (record {
          same_paths = refl;
          in_range = omega (arith, mod-lt (s.next_path + 1) (positive paths some_path));
        })
]

pub run-IsAt :
    (ops : List Op) (paths : List ServerPath) (s : ServerTunSession)
    → Distinct paths
    → Fresh paths ops
    → IsAt paths s
    → IsAt (joined paths ops) (run s ops)
unfolding run step joined Fresh
run-IsAt [] paths s d f h = h
run-IsAt (joins path_id stream ∷ ops) paths s d f h =
    run-IsAt ops _ _ (append_path-Distinct paths (record { id = path_id; stream = stream }) d f.0)
      f.1 (add_path-IsAt paths s path_id stream h)
run-IsAt (leaves stream ∷ ops) paths s d f h =
    run-IsAt ops _ _ (others-Distinct stream paths d) f (remove_path-IsAt paths s stream d h)
run-IsAt (takes ∷ ops) paths s d f h = run-IsAt ops _ _ d f (take_path-IsAt paths s h)

-- However the goroutines' calls interleave on a new session, where each stream that joins is new to it:
-- the session has the paths that joined, in that order, less those that left, and its index is the
-- index of one of them (0 if there is none).
pub session-IsAt :
    (ops : List Op) → Fresh [] ops → IsAt (joined [] ops) (run new_server_tun_session ops)
unfolding new_server_tun_session
session-IsAt ops f = run-IsAt ops [] _ tt f (record { same_paths = refl; in_range = omega arith })
