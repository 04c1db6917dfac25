-- ===== src/Server/Session/Invariant/Leaving.antt =====
-- A path that joins the session and leaves it.
use mvp_vpn_lite.Base.{ℕ, arith, List, [], ◌∷◌, Bool-cases, inl, inr, ◌==◌}
use mvp_vpn_lite.Server.Session.{ServerPath, ServerTunSession, add_path, remove_path}
use mvp_vpn_lite.Server.Session.Invariant.{
  Op, joins, leaves, takes, step, run, others, joined, Avoids, Distinct, Fresh, IsAt,
  append_path-Distinct, others-Distinct, run-IsAt, remove_path-IsAt,
}

joined-Distinct :
    (ops : List Op) (paths : List ServerPath)
    → Distinct paths
    → Fresh paths ops
    → Distinct (joined paths ops)
unfolding joined Fresh
joined-Distinct [] paths d f = d
joined-Distinct (joins path_id stream ∷ ops) paths d f =
    joined-Distinct ops _
      (append_path-Distinct paths (record { id = path_id; stream = stream }) d f.0) f.1
joined-Distinct (leaves stream ∷ ops) paths d f =
    joined-Distinct ops _ (others-Distinct stream paths d) f
joined-Distinct (takes ∷ ops) paths d f = joined-Distinct ops paths d f

others-gone : (stream : ℕ) (paths : List ServerPath) → Avoids stream (others stream paths)
others-gone stream [] = tt
others-gone stream (p ∷ rest) = elim (Bool-cases (p.stream == stream)) [
  | inl same ↦ rw same (others-gone stream rest)
  | inr differ ↦ rw differ ((λ e. ground arith), others-gone stream rest)
]

-- Whatever the others do in between, a stream that has joined and left is not in the session.
pub left-Avoids :
    (s : ServerTunSession) (paths : List ServerPath) (path_id stream : ℕ) (ops : List Op)
    → IsAt paths s
    → Distinct paths
    → Fresh paths (joins path_id stream ∷ ops)
    → Avoids stream (remove_path (run (add_path s path_id stream) ops) stream).paths
unfolding run step
left-Avoids s paths path_id stream ops at d f =
    let all = joins path_id stream ∷ ops in
    let gone =
      remove_path-IsAt (joined paths all) (run s all) stream (joined-Distinct all paths d f)
        (run-IsAt all paths s d f at) in
    rw (gone.same_paths) (others-gone stream (joined paths all))
