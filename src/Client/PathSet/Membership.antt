-- ===== src/Client/PathSet/Membership.antt =====
-- The path set as a map from ids to paths.
use mvp_vpn_lite.Base.{
  ℕ, ◌≡◌, ◌≢◌, arith, refl, sym, Bool, true, false, Option, none, some, if◌then◌else◌, List, [],
  ◌∷◌, All, Option-cases, inl, inr, ◌==◌, ◌⊎◌,
}
use mvp_vpn_lite.Client.Path.{ClientPath}
use mvp_vpn_lite.Client.PathSet.{
  ClientPathSet, replace_path, append_path, add, remove_path, remove, has_id, has_path_id,
}
use mvp_vpn_lite.Client.PathSet.Invariant.{replace_view, remove_view, Avoids, Distinct, IsValid}

-- The path with an id.
abbrev pub find_id : ℕ → List ClientPath → Option ClientPath
find_id j [] = none
find_id j (p ∷ rest) = if p.id == j then some p else find_id j rest

abbrev is_some : Option ClientPath → Bool
is_some none = false
is_some (some p) = true

has_id-find_id : (j : ℕ) (paths : List ClientPath) → has_id j paths ≡ is_some (find_id j paths)
unfolding has_id
has_id-find_id j [] = refl
has_id-find_id j (p ∷ rest) = ground (arith, has_id-find_id j rest)

-- `hasPathID` tells whether the map has the id.
pub has_path_id-find_id :
    (s : ClientPathSet) (j : ℕ) → has_path_id s j ≡ is_some (find_id j s.paths)
unfolding has_path_id
has_path_id-find_id s j = has_id-find_id j s.paths

find_id-append_path :
    (j : ℕ) (paths : List ClientPath) (p : ClientPath)
    → find_id p.id paths ≡ none
    → find_id j (append_path paths p) ≡ (if p.id == j then some p else find_id j paths)
unfolding append_path
find_id-append_path j [] p e = refl
find_id-append_path j (q ∷ rest) p e = ground (arith, find_id-append_path j rest p)

replace_none-find_id :
    (p : ClientPath) (paths : List ClientPath)
    → replace_path p paths ≡ none
    → find_id p.id paths ≡ none
unfolding replace_path
replace_none-find_id p [] e = refl
replace_none-find_id p (q ∷ rest) e = ground (arith, replace_none-find_id p rest)

replace_some-find_id :
    (j : ℕ) (p : ClientPath) (paths : List ClientPath) {old : ClientPath} {new : List ClientPath}
    → replace_path p paths ≡ some (old, new)
    → (find_id p.id paths ≡ some old)
      × (find_id j new ≡ (if p.id == j then some p else find_id j paths))
replace_some-find_id j p [] e = unfold replace_path in absurd (cc)
replace_some-find_id j p (q ∷ rest) e = elim (replace_view p q rest e) [
  | inl (same, is_old, is_new) ↦ rw (is_old, is_new) (ground arith, ground arith)
  | inr (new', differ, found, is_new) ↦ rw is_new (
    ground (arith, replace_some-find_id j p rest found),
    ground (arith, replace_some-find_id j p rest found),
  )
]

-- `add` puts the path at its id and leaves the other ids alone; its result is the path that had the
-- id before.
pub add-find_id :
    (s : ClientPathSet) (p : ClientPath) (j : ℕ)
    → (find_id j (add s p).1.paths ≡ (if p.id == j then some p else find_id j s.paths))
      × ((add s p).0 ≡ find_id p.id s.paths)
add-find_id s p j = elim (Option-cases (replace_path p s.paths)) [
  | inl missing ↦
      let e = replace_none-find_id p s.paths missing in
      unfold add in rw (missing, add) (find_id-append_path j s.paths p e, sym e)
  | inr ((old, new), found) ↦
      let e = replace_some-find_id j p s.paths found in unfold add in rw (found, add) (e.1, sym e.0)
]

find_id-Avoids : (j : ℕ) (paths : List ClientPath) → Avoids j paths → find_id j paths ≡ none
find_id-Avoids j [] a = refl
find_id-Avoids j (p ∷ rest) a = ground (arith, find_id-Avoids j rest a.1)

remove_some-find_id :
    (j stream : ℕ) (paths : List ClientPath) {old : ClientPath} {new : List ClientPath}
    → Distinct paths
    → remove_path stream paths ≡ some (old, new)
    → (old.stream ≡ stream)
      × (find_id old.id paths ≡ some old)
      × (find_id j new ≡ (if old.id == j then none else find_id j paths))
remove_some-find_id j stream [] d e = unfold remove_path in absurd (cc)
remove_some-find_id j stream (q ∷ rest) d e = elim (remove_view stream q rest e) [
  | inl (same, is_old, is_new) ↦
      rw (is_old, is_new) (same, ground arith, ground (arith, find_id-Avoids q.id rest d.0))
  | inr (new', differ, found, is_new) ↦
      let ih = remove_some-find_id j stream rest d.1 found in
      rw is_new (
        ih.0,
        ground (arith, find_id-Avoids q.id rest d.0),
        ground (arith, find_id-Avoids q.id rest d.0),
      )
]

remove_none :
    (stream : ℕ) (paths : List ClientPath)
    → remove_path stream paths ≡ none
    → All (λ (p : ClientPath). p.stream ≢ stream) paths
unfolding remove_path
remove_none stream [] e = tt
remove_none stream (q ∷ rest) e = ground (arith, remove_none stream rest)

-- `remove` takes out a path with the stream, if there is one: its id is then in the map no more, and
-- the other ids stay as they were. Otherwise nothing changes.
pub remove-find_id :
    (s : ClientPathSet) (stream j : ℕ)
    → IsValid s
    → ((p : ClientPath) × ((remove s stream).0 ≡ some p)
        × (p.stream ≡ stream)
        × (find_id p.id s.paths ≡ some p)
        × (find_id j (remove s stream).1.paths ≡ (if p.id == j then none else find_id j s.paths)))
      ⊎ ((remove s stream ≡ (none, s)) × All (λ (p : ClientPath). p.stream ≢ stream) s.paths)
remove-find_id s stream j v = elim (Option-cases (remove_path stream s.paths)) [
  | inl missing ↦ inr (unfold remove in rw (missing, remove), remove_none stream s.paths missing)
  | inr ((old, new), found) ↦
      let e = remove_some-find_id j stream s.paths v.distinct found in
      inl (
        old,
        unfold remove in rw (found, remove),
        e.0,
        e.1,
        unfold remove in rw (found, remove) e.2,
      )
]

-- A path whose id is not in the set replaces none.
pub add-missing :
    (s : ClientPathSet) (p : ClientPath)
    → has_path_id s p.id ≡ false
    → add s p ≡ (none, record s { paths = append_path s.paths p })
unfolding has_path_id has_id add replace_path
add-missing s p missing = rw (missing-replace_path s.paths missing, add) refl
  where
    missing-replace_path :
        (paths : List ClientPath) → has_id p.id paths ≡ false → replace_path p paths ≡ none
    missing-replace_path [] e = refl
    missing-replace_path (q ∷ rest) e = ground (arith, missing-replace_path rest)
