-- ===== src/Client/PathSet/Removal.antt =====
-- The removal of a path that failed.
use mvp_vpn_lite.Base.{
  ℕ, zero, suc, ◌≡◌, refl, Option, some, List, [], ◌∷◌, length, get_elem?, Bool-cases, inl, inr,
  ◌==◌, arith,
}
use mathlib.Core.Path.{subst}
use mvp_vpn_lite.Client.Path.{ClientPath}
use mvp_vpn_lite.Client.PathSet.{
  ClientPathSet, remove_path, remove, next_within, mark_success, mark_failure,
}
use mvp_vpn_lite.Client.PathSet.Invariant.{IsValid, remove-IsValid, remove_path-Removed}

-- A path that is there can be removed by its stream.
removable :
    (paths : List ClientPath) (i : ℕ) (p : ClientPath)
    → get_elem? paths i ≡ some p
    → (old : ClientPath) × (rest : List ClientPath) × (remove_path p.stream paths
        ≡ some (old, rest))
unfolding remove_path
removable [] i p e = absurd (cc e)
removable (q ∷ paths) zero p e = (q, paths, ground arith)
removable (q ∷ paths) (suc i) p e =
    let (old, rest, found) = removable paths i p e in
    elim (Bool-cases (q.stream == p.stream)) [
      | inl same ↦ (q, paths, rw same refl)
      | inr differ ↦ (old, q ∷ rest, rw (differ, found) refl)
    ]

-- How a removal of a path that is there ends.
removed_one :
    (s : ClientPathSet) (i : ℕ) (p : ClientPath)
    → get_elem? s.paths i ≡ some p
    → (old : ClientPath) × (set : ClientPathSet) × (remove s p.stream ≡ (some old, set))
      × (length s.paths ≡ suc (length set.paths))
unfolding remove
removed_one s i p e =
    let (old, rest, found) = removable s.paths i p e in
    (
      old,
      record s { paths = rest; next = next_within s.next (length rest) },
      rw (remove, found) refl,
      (remove_path-Removed p.stream s.paths found).one_less,
    )

pub mark_success-IsValid : (s : ClientPathSet) (id : ℕ) → IsValid s → IsValid (mark_success s id)
unfolding mark_success
mark_success-IsValid s id v = record { in_range = v.in_range; distinct = v.distinct }

mark_failure-IsValid :
    (s : ClientPathSet) (id now : ℕ) → IsValid s → IsValid (mark_failure s id now).1
unfolding mark_failure
mark_failure-IsValid s id now v = record { in_range = v.in_range; distinct = v.distinct }

-- A path of the set that failed is removed: the set is shorter by one, and valid.
pub failed_removed :
    (s : ClientPathSet) (i now : ℕ) (p : ClientPath)
    → IsValid s
    → get_elem? s.paths i ≡ some p
    → let marked = (mark_failure s p.id now).1 in
      (old : ClientPath) × (set : ClientPathSet) × (remove marked p.stream ≡ (some old, set))
      × (length s.paths ≡ suc (length set.paths))
      × IsValid set
unfolding mark_failure
failed_removed s i now p v e =
    let marked = (mark_failure s p.id now).1 in
    let (old, set, removed, one_less) = removed_one marked i p e in
    (
      old,
      set,
      removed,
      one_less,
      subst (λ (r : Option ClientPath × ClientPathSet). IsValid r.1) removed
          (remove-IsValid marked p.stream (mark_failure-IsValid s p.id now v)),
    )
