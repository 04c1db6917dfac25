-- ===== src/Client/PathSet/Selection.antt =====
-- Which path nextPath chooses.
use mvp_vpn_lite.Base.{
  ℕ, zero, suc, ◌+◌, ◌%◌, ◌≤◌, ◌<◌, ◌≡◌, arith, refl, true, false, some, [], length, get_elem?,
  get_elem?_lt, ok, err, Bool-cases, inl, inr, ◌⊎◌, ne→==,
}
use native.Mathlib.Nat.{mod-lt, mod-eq_of_lt, zero-add}
use native.Mathlib.Decide.{ℕ_discrete}
use mvp_vpn_lite.Client.Path.{ClientPath}
use mvp_vpn_lite.Client.PathSet.{ClientPathSet, cooling_at, search_from, next_path}
use mvp_vpn_lite.Client.PathSet.Invariant.{IsValid}

-- The index that is `i` places from `start`, round the paths.
abbrev pub place : ClientPathSet → ℕ → ℕ → ℕ
place s start i = (start + i) % length s.paths

-- All paths from one offset up to another are cooling down.
abbrev pub Cooling : ClientPathSet → ℕ → ℕ → ℕ → ℕ → Type 0
Cooling s now start from to =
    (k : ℕ) → from ≤ k → k < to → cooling_at s now (place s start k) ≡ true

-- The first place that is not cooling down, or `start` if there is none.
abbrev pub Found : ClientPathSet → ℕ → ℕ → ℕ → ℕ → ℕ → Type 0
Found s now start from to index =
    ((j : ℕ) × (from ≤ j)
      × (j < to)
      × (index ≡ place s start j)
      × (cooling_at s now index ≡ false)
      × Cooling s now start from j)
    ⊎ ((index ≡ start) × Cooling s now start from to)

module _ (s : ClientPathSet) (now start : ℕ) where
  Cooling-cons :
      (i to : ℕ)
      → cooling_at s now (place s start i) ≡ true
      → Cooling s now start (i + 1) to
      → Cooling s now start i to
  Cooling-cons i to here rest k le lt = elim (ℕ_discrete k i) [
    | yes e ↦ rw e here
    | no ne ↦ rest k (omega arith) lt
  ]

  search_from-Found : (left i : ℕ) → Found s now start i (i + left) (search_from s now start i left)
  unfolding search_from
  search_from-Found zero i = inr (refl, λ k le lt. absurd (omega arith))
  search_from-Found (suc left) i = elim (Bool-cases (cooling_at s now (place s start i))) [
    | inl cooling ↦ rw cooling (elim (search_from-Found left (i + 1)) [
      | inl (j, le, lt, e, warm, c) ↦
          inl (j, omega arith, omega arith, e, warm, Cooling-cons i j cooling c)
      | inr (e, c) ↦
          inr (e, Cooling-cons i (i + suc left) cooling (λ k le lt. c k le (omega arith)))
    ])
    | inr warm ↦
        rw warm (inl (i, omega arith, omega arith, refl, warm, λ k le lt. absurd (omega arith)))
  ]

  Found-lt :
      (to index : ℕ)
      → start < length s.paths
      → Found s now start 0 to index
      → index < length s.paths
  Found-lt to index lt (inl (j, le, jlt, e, warm, c)) =
      omega (arith, mod-lt (start + j) {m = length s.paths} (omega arith))
  Found-lt to index lt (inr (e, c)) = omega arith

-- From a valid set that has paths, `nextPath` returns the path at the first place from `next` on,
-- round the paths, that is not cooling down, and the one at `next` if all are; `next` becomes the
-- index behind it, and nothing else changes.
pub next_path_selects :
    (s : ClientPathSet) (now : ℕ)
    → IsValid s
    → 0 < length s.paths
    → (p : ClientPath) × (index : ℕ) × (next_path s now
        ≡ (ok p, record s { next = (index + 1) % length s.paths }))
      × (get_elem? s.paths index ≡ some p)
      × Found s now s.next 0 (length s.paths) index
unfolding next_path
next_path_selects s now v some_path =
    let index = search_from s now s.next 0 (length s.paths) in
    let found : Found s now s.next 0 (length s.paths) index =
      rw (zero-add (length s.paths)) at (search_from-Found s now s.next (length s.paths) 0) in
    let (p, at_index) =
      get_elem?_lt s.paths index
        (Found-lt s now s.next (length s.paths) index (omega arith) found) in
    (
      p,
      index,
      rw (
        ne→== (length s.paths) 0 (omega arith),
        mod-eq_of_lt {n = s.next} {m = length s.paths} (omega arith),
        at_index,
      ),
      at_index,
      found,
    )

-- With no path `nextPath` fails and changes nothing.
pub next_path_empty : (s : ClientPathSet) (now : ℕ) → s.paths ≡ [] → next_path s now ≡ (err tt, s)
unfolding next_path
next_path_empty s now e = rw e
