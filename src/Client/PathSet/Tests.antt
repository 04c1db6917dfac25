-- ===== src/Client/PathSet/Tests.antt =====
-- The path set's theorems on two paths.
use mvp_vpn_lite.Base.{
  ℕ, ◌+◌, ◌%◌, ◌≡◌, ◌≢◌, ◌⊎◌, refl, arith, none, some, [], ◌∷◌, ok, get_elem?, All, if◌then◌else◌,
  ◌==◌,
}
use mvp_vpn_lite.Client.Path.{ClientPath, is_cooling_down, client_path_cooldown}
use mvp_vpn_lite.Client.PathSet.{
  ClientPathSet, new_client_path_set, add, next_path, search_from, remove, mark_failure,
}
use mvp_vpn_lite.Client.PathSet.Invariant.{
  IsValid, adds, picks, removes, fails, run, run-new-IsValid,
}
use mvp_vpn_lite.Client.PathSet.Selection.{Found, next_path_selects}
use mvp_vpn_lite.Client.PathSet.Membership.{find_id, add-find_id, remove-find_id}

abbrev path0 : ClientPath
path0 = record { id = 0; address = "a:4433"; conn = 10; stream = 20 }

abbrev path1 : ClientPath
path1 = record { id = 1; address = "a:4434"; conn = 11; stream = 21 }

abbrev both : ClientPathSet
both = record { paths = path0 ∷ path1 ∷ []; next = 0; health = λ id. none }

both-IsValid : IsValid both
both-IsValid = record { in_range = omega arith; distinct = omega arith }

-- A path that has just failed is passed over.
skips_cooling : (next_path (mark_failure both 0 1000).1 1000).0 ≡ ok path1
unfolding next_path search_from mark_failure is_cooling_down client_path_cooldown
skips_cooling = refl

run-new-IsValid_example : IsValid (
    run
      (new_client_path_set (path0 ∷ path1 ∷ []))
      (picks 5 ∷ fails 0 5 ∷ removes 20 ∷ adds path0 ∷ []))
run-new-IsValid_example =
    run-new-IsValid (path0 ∷ path1 ∷ []) (picks 5 ∷ fails 0 5 ∷ removes 20 ∷ adds path0 ∷ [])
      (omega arith)

next_path_selects_example :
    (p : ClientPath) × (index : ℕ) × (next_path both 5
      ≡ (ok p, record both { next = (index + 1) % 2 }))
    × (get_elem? both.paths index ≡ some p)
    × Found both 5 0 0 2 index
next_path_selects_example = next_path_selects both 5 both-IsValid (omega arith)

add_keeps_other :
    (find_id 1 (add both path0).1.paths ≡ (if 0 == 1 then some path0 else find_id 1 both.paths))
    × ((add both path0).0 ≡ find_id 0 both.paths)
add_keeps_other = add-find_id both path0 1

remove-find_id_example :
    ((p : ClientPath) × ((remove both 20).0 ≡ some p)
      × (p.stream ≡ 20)
      × (find_id p.id both.paths ≡ some p)
      × (find_id 1 (remove both 20).1.paths ≡ (if p.id == 1 then none else find_id 1 both.paths)))
    ⊎ ((remove both 20 ≡ (none, both)) × All (λ (p : ClientPath). p.stream ≢ 20) both.paths)
remove-find_id_example = remove-find_id both 20 1 both-IsValid
