-- ===== src/Client/PathSet/Contents.antt =====
-- What holds of every path of the set, and how many there are, when one comes or goes.
use mvp_vpn_lite.Base.{
  ℕ, suc, ◌+◌, ◌≡◌, arith, refl, ap, Option, none, some, List, [], ◌∷◌, length, All, Option-cases,
  Bool-cases, ◌==◌, inl, inr,
}
use mvp_vpn_lite.Client.Path.{ClientPath}
use mvp_vpn_lite.Client.PathSet.{
  ClientPathSet, replace_path, append_path, add, remove_path, remove, next_path, mark_success,
  mark_failure,
}
use mvp_vpn_lite.Client.PathSet.Invariant.{replace_view, remove_view}

-- How a set changes when a path is added or removed: the paths that were in it, and the path that left.
abbrev pub Left : (P : ClientPath → Type 0) → ℕ → Option ClientPath × ClientPathSet → Type 0
Left P n (none, set) = All P set.paths × (length set.paths ≡ n)
Left P n (some old, set) = All P set.paths × P old × (suc (length set.paths) ≡ n)

module _ (P : ClientPath → Type 0) where
  pub append_path-All :
      (paths : List ClientPath) (p : ClientPath)
      → All P paths
      → P p
      → All P (append_path paths p) × (length (append_path paths p) ≡ length paths + 1)
  unfolding append_path
  append_path-All [] p h hp = ((hp, tt), omega arith)
  append_path-All (q ∷ rest) p h hp =
      let (ih, counted) = append_path-All rest p h.1 hp in ((h.0, ih), omega arith)

  pub replace_path-All :
      (p : ClientPath) (paths : List ClientPath) {old : ClientPath} {new : List ClientPath}
      → replace_path p paths ≡ some (old, new)
      → All P paths
      → P p
      → All P new × P old × (length new ≡ length paths)
  replace_path-All p [] e h hp = unfold replace_path in absurd (cc)
  replace_path-All p (q ∷ rest) e h hp = elim (replace_view p q rest e) [
    | inl (same, is_old, is_new) ↦ rw (is_old, is_new) ((hp, h.1), h.0, refl)
    | inr (new', differ, found, is_new) ↦
        let (all, left, counted) = replace_path-All p rest found h.1 hp in
        rw is_new ((h.0, all), left, ap suc counted)
  ]

  pub remove_path-All :
      (stream : ℕ) (paths : List ClientPath) {old : ClientPath} {new : List ClientPath}
      → remove_path stream paths ≡ some (old, new)
      → All P paths
      → All P new × P old × (suc (length new) ≡ length paths)
  remove_path-All stream [] e h = unfold remove_path in absurd (cc)
  remove_path-All stream (q ∷ rest) e h = elim (remove_view stream q rest e) [
    | inl (same, is_old, is_new) ↦ rw (is_old, is_new) (h.1, h.0, refl)
    | inr (new', differ, found, is_new) ↦
        let (all, left, counted) = remove_path-All stream rest found h.1 in
        rw is_new ((h.0, all), left, ap suc counted)
  ]

  -- A path that is added is one more, or takes the place of one.
  pub add-Left :
      (s : ClientPathSet) (p : ClientPath)
      → All P s.paths
      → P p
      → Left P (length s.paths + 1) (add s p)
  unfolding add
  add-Left s p h hp = elim (Option-cases (replace_path p s.paths)) [
    | inl missing ↦ rw (missing, add) (append_path-All s.paths p h hp)
    | inr ((old, new), found) ↦
        let (all, left, counted) = replace_path-All p s.paths found h hp in
        rw (found, add) (all, left, omega arith)
  ]

  -- A path that is removed is one less; if there is none, the set stays.
  pub remove-Left :
      (s : ClientPathSet) (stream : ℕ) → All P s.paths → Left P (length s.paths) (remove s stream)
  unfolding remove
  remove-Left s stream h = elim (Option-cases (remove_path stream s.paths)) [
    | inl missing ↦ rw (missing, remove) (h, refl)
    | inr ((old, new), found) ↦ rw (found, remove) (remove_path-All stream s.paths found h)
  ]

-- The rotation and the health of the paths leave the paths as they are.
pub next_path-paths : (s : ClientPathSet) (now : ℕ) → (next_path s now).1.paths ≡ s.paths
unfolding next_path
next_path-paths s now = elim (Bool-cases (length s.paths == 0)) [
  | inl empty ↦ rw (empty, next_path) refl
  | inr some_path ↦ rw (some_path, next_path) refl
]

pub mark_success-paths : (s : ClientPathSet) (id : ℕ) → (mark_success s id).paths ≡ s.paths
unfolding mark_success
mark_success-paths s id = refl

pub mark_failure-paths :
    (s : ClientPathSet) (id now : ℕ) → (mark_failure s id now).1.paths ≡ s.paths
unfolding mark_failure
mark_failure-paths s id now = refl
