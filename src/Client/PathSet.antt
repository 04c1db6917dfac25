-- ===== src/Client/PathSet.antt =====
-- internal/quictransport/client.go: clientPathSet. Each method holds the mutex throughout, so a call
-- is one step of the state; `s.now()` is an argument.
pub mod Invariant
pub mod Selection
pub mod Membership
pub mod Removal
pub mod Contents
mod Tests
use mvp_vpn_lite.Base.{
  ℕ, zero, suc, ◌+◌, ◌%◌, ◌^◌, Bool, true, false, not, Option, none, some, List, [], ◌∷◌, Result,
  ok, err, panic, or_panic, length, get_elem?, leb, ◌==◌, if◌then◌else◌,
}
use mvp_vpn_lite.Client.Path.{
  ClientPath, ClientPathHealth, health_at, is_cooling_down, client_path_cooldown,
}

pub record ClientPathSet : Type 0 where
  pub paths : List ClientPath
  pub next : ℕ
  pub health : ℕ → Option ClientPathHealth

unfoldable pub new_client_path_set : List ClientPath → ClientPathSet
new_client_path_set paths = record { paths = paths; next = 0; health = λ id. none }

-- The first path with the given id is replaced; the old one is the result.
unfoldable pub replace_path : ClientPath → List ClientPath → Option (ClientPath × List ClientPath)
replace_path path [] = none
replace_path path (current ∷ rest) =
    if current.id == path.id then some (current, path ∷ rest) else elim (replace_path path rest) [
      | none ↦ none
      | some (old, rest') ↦ some (old, current ∷ rest')
    ]

unfoldable pub append_path : List ClientPath → ClientPath → List ClientPath
append_path [] path = path ∷ []
append_path (p ∷ rest) path = p ∷ append_path rest path

-- `add`: the path that was replaced, if there was one.
unfoldable pub add : ClientPathSet → ClientPath → Option ClientPath × ClientPathSet
unfolding replace_path append_path
add s path = elim (replace_path path s.paths) [
  | none ↦ (none, record s { paths = append_path s.paths path })
  | some (old, paths) ↦ (some old, record s { paths = paths })
]

-- Whether the path at an index is cooling down. The index is in range where the code reads it.
abbrev pub cooling_at : ClientPathSet → ℕ → ℕ → Bool
cooling_at s now i = elim (get_elem? s.paths i) [
  | none ↦ false
  | some candidate ↦ is_cooling_down (health_at s.health candidate.id) now
]

-- The search loop, with `left` rounds to go, at offset `i` from `start`.
pub search_from : ClientPathSet → ℕ → ℕ → ℕ → ℕ → ℕ
search_from s now start i zero = start
search_from s now start i (suc left) =
    let rest = search_from s now start (i + 1) left in
    let candidate_index = (start + i) % length s.paths in
    if not (cooling_at s now candidate_index) then candidate_index else rest

-- The only error is that there is no path.
pub next_path : ClientPathSet → ℕ → Result (Unit {0}) ClientPath × ClientPathSet
next_path s now =
    if length s.paths == 0
    then (err tt, s)
    else let index = search_from s now (s.next % length s.paths) 0 (length s.paths) in
      (or_panic (get_elem? s.paths index), record s { next = (index + 1) % length s.paths })

-- The first path with the given stream, and the others.
unfoldable pub remove_path : ℕ → List ClientPath → Option (ClientPath × List ClientPath)
remove_path stream [] = none
remove_path stream (path ∷ rest) =
    if path.stream == stream
    then some (path, rest)
    else elim (remove_path stream rest) [ none ↦ none | some (p, rest') ↦ some (p, path ∷ rest') ]

abbrev pub next_within : ℕ → ℕ → ℕ
next_within next count = if count == 0 then 0 else if leb count next then next % count else next

-- `remove`: the path that was removed, if there was one.
unfoldable pub remove : ClientPathSet → ℕ → Option ClientPath × ClientPathSet
unfolding remove_path
remove s stream = elim (remove_path stream s.paths) [
  | none ↦ (none, s)
  | some (path, paths) ↦
      (some path, record s { paths = paths; next = next_within s.next (length paths) })
]

unfoldable pub has_id : ℕ → List ClientPath → Bool
has_id path_id [] = false
has_id path_id (path ∷ rest) = if path.id == path_id then true else has_id path_id rest

unfoldable pub has_path_id : ClientPathSet → ℕ → Bool
unfolding has_id
has_path_id s path_id = has_id path_id s.paths

-- `len` and `snapshot`
pub path_count : ClientPathSet → ℕ
path_count s = length s.paths

unfoldable pub snapshot : ClientPathSet → List ClientPath
snapshot s = s.paths

abbrev put_health :
    (ℕ → Option ClientPathHealth) → ℕ → Option ClientPathHealth → ℕ → Option ClientPathHealth
put_health health id h j = if j == id then h else health j

unfoldable pub mark_success : ClientPathSet → ℕ → ClientPathSet
mark_success s path_id = record s { health = put_health s.health path_id none }

-- The failure count is a uint64.
pub mark_failure : ClientPathSet → ℕ → ℕ → ClientPathHealth × ClientPathSet
mark_failure s path_id now =
    let failures = ((health_at s.health path_id).consecutive_failures + 1) % 2 ^ 64 in
    let health : ClientPathHealth = record {
      consecutive_failures = failures;
      cooldown_until = now + client_path_cooldown failures;
    } in
    (health, record s { health = put_health s.health path_id (some health) })
