-- ===== src/Client/PathSet/Invariant.antt =====
-- The invariant of the path set: `next` is an index, and no two paths have one id.
use mvp_vpn_lite.Base.{
  ℕ, suc, ◌+◌, ◌-◌, ◌%◌, ◌≤◌, ◌<◌, ◌≡◌, ◌≢◌, arith, refl, ap, sym, false, none, some, List, [], ◌∷◌,
  length, All, Bool-cases, Option-cases, inl, inr, ◌==◌, ◌⊎◌, ◌∙◌,
}
use mathlib.Core.Path.{subst}
use native.Mathlib.Nat.{mod-lt}
use mvp_vpn_lite.Client.Path.{ClientPath}
use mvp_vpn_lite.Client.PathSet.{
  ClientPathSet, new_client_path_set, replace_path, append_path, add, search_from, next_path,
  next_within, remove_path, remove, mark_success, mark_failure,
}

abbrev pub Avoids : ℕ → List ClientPath → Type 0
Avoids id = All (λ (p : ClientPath). p.id ≢ id)

abbrev pub Distinct : List ClientPath → Type 0
Distinct [] = Unit
Distinct (p ∷ rest) = Avoids p.id rest × Distinct rest

pub record IsValid (s : ClientPathSet) : Type 0 where
  pub in_range : s.next ≤ length s.paths - 1
  pub distinct : Distinct s.paths

length-append_path :
    (paths : List ClientPath) (p : ClientPath) → length (append_path paths p) ≡ length paths + 1
unfolding append_path
length-append_path [] p = omega arith
length-append_path (q ∷ rest) p = omega (arith, length-append_path rest p)

append_path-Avoids :
    (id : ℕ) (paths : List ClientPath) (p : ClientPath)
    → Avoids id paths
    → p.id ≢ id
    → Avoids id (append_path paths p)
unfolding append_path
append_path-Avoids id [] p h ne = (ne, tt)
append_path-Avoids id (q ∷ rest) p h ne = (h.0, append_path-Avoids id rest p h.1 ne)

replace_none-Avoids :
    (paths : List ClientPath) (p : ClientPath) → replace_path p paths ≡ none → Avoids p.id paths
unfolding replace_path
replace_none-Avoids [] p e = tt
replace_none-Avoids (q ∷ rest) p e = ground (arith, replace_none-Avoids rest p)

append_path-Distinct :
    (paths : List ClientPath) (p : ClientPath)
    → Distinct paths
    → Avoids p.id paths
    → Distinct (append_path paths p)
unfolding append_path
append_path-Distinct [] p d a = (tt, tt)
append_path-Distinct (q ∷ rest) p d a =
    (append_path-Avoids q.id rest p d.0 (λ e. a.0 (sym e)), append_path-Distinct rest p d.1 a.1)

-- What the replacement of a path by one with its id keeps.
record Replaced (p : ClientPath) (paths : List ClientPath) (old : ClientPath)
    (new : List ClientPath) : Type 0 where
  same_id : old.id ≡ p.id
  same_length : length new ≡ length paths
  avoids : (id : ℕ) → Avoids id paths → Avoids id new
  distinct : Distinct paths → Distinct new

-- How a replacement came about.
pub replace_view :
    (p q : ClientPath) (rest : List ClientPath) {old : ClientPath} {new : List ClientPath}
    → replace_path p (q ∷ rest) ≡ some (old, new)
    → ((q.id ≡ p.id) × (old ≡ q) × (new ≡ p ∷ rest))
      ⊎ ((new' : List ClientPath) × (q.id ≢ p.id)
          × (replace_path p rest ≡ some (old, new'))
          × (new ≡ q ∷ new'))
unfolding replace_path
replace_view p q rest e = elim (Bool-cases (q.id == p.id)) [
  | inl same ↦ inl (ground arith, ground arith, ground arith)
  | inr differ ↦ elim (Option-cases (replace_path p rest)) [
    | inl missing ↦ absurd (ground arith)
    | inr ((o, new'), found) ↦ inr (new', ground arith, ground arith, ground arith)
  ]
]

replace_path-Replaced :
    (p : ClientPath) (paths : List ClientPath) {old : ClientPath} {new : List ClientPath}
    → replace_path p paths ≡ some (old, new)
    → Replaced p paths old new
replace_path-Replaced p [] e = unfold replace_path in absurd (cc)
replace_path-Replaced p (q ∷ rest) e = elim (replace_view p q rest e) [
  | inl (same, is_old, is_new) ↦
      rw (is_old, is_new)
        (record {
          same_id = same;
          same_length = refl;
          avoids = λ id h. ((λ e. h.0 (same ∙ e)), h.1);
          distinct = λ d. (subst (λ i. Avoids i rest) same d.0, d.1);
        })
  | inr (new', differ, found, is_new) ↦
      let ih = replace_path-Replaced p rest found in
      rw is_new (record {
        same_id = ih.same_id;
        same_length = ap suc ih.same_length;
        avoids = λ id h. (h.0, ih.avoids id h.1);
        distinct = λ d. (ih.avoids q.id d.0, ih.distinct d.1);
      })
]

-- What a removal keeps.
pub record Removed (stream : ℕ) (paths : List ClientPath) (old : ClientPath) (new : List ClientPath)
    : Type 0 where
  pub same_stream : old.stream ≡ stream
  pub one_less : length paths ≡ suc (length new)
  pub avoids : (id : ℕ) → Avoids id paths → Avoids id new
  pub distinct : Distinct paths → Distinct new

-- How a removal came about.
pub remove_view :
    (stream : ℕ) (q : ClientPath) (rest : List ClientPath) {old : ClientPath}
    {new : List ClientPath}
    → remove_path stream (q ∷ rest) ≡ some (old, new)
    → ((q.stream ≡ stream) × (old ≡ q) × (new ≡ rest))
      ⊎ ((new' : List ClientPath) × (q.stream ≢ stream)
          × (remove_path stream rest ≡ some (old, new'))
          × (new ≡ q ∷ new'))
unfolding remove_path
remove_view stream q rest e = elim (Bool-cases (q.stream == stream)) [
  | inl same ↦ inl (ground arith, ground arith, ground arith)
  | inr differ ↦ elim (Option-cases (remove_path stream rest)) [
    | inl missing ↦ absurd (ground arith)
    | inr ((o, new'), found) ↦ inr (new', ground arith, ground arith, ground arith)
  ]
]

pub remove_path-Removed :
    (stream : ℕ) (paths : List ClientPath) {old : ClientPath} {new : List ClientPath}
    → remove_path stream paths ≡ some (old, new)
    → Removed stream paths old new
remove_path-Removed stream [] e = unfold remove_path in absurd (cc)
remove_path-Removed stream (q ∷ rest) e = elim (remove_view stream q rest e) [
  | inl (same, is_old, is_new) ↦
      rw (is_old, is_new)
        (record { same_stream = same; one_less = refl; avoids = λ id h. h.1; distinct = λ d. d.1 })
  | inr (new', differ, found, is_new) ↦
      let ih = remove_path-Removed stream rest found in
      rw is_new (record {
        same_stream = ih.same_stream;
        one_less = ap suc ih.one_less;
        avoids = λ id h. (h.0, ih.avoids id h.1);
        distinct = λ d. (ih.avoids q.id d.0, ih.distinct d.1);
      })
]

pub new-IsValid : (paths : List ClientPath) → Distinct paths → IsValid (new_client_path_set paths)
unfolding new_client_path_set
new-IsValid paths d = record { in_range = omega arith; distinct = d }

pub add-IsValid : (s : ClientPathSet) (p : ClientPath) → IsValid s → IsValid (add s p).1
unfolding add
add-IsValid s p v = elim (Option-cases (replace_path p s.paths)) [
  | inl missing ↦
      rw (missing, add)
        (record {
          in_range = omega (arith, length-append_path s.paths p);
          distinct =
              append_path-Distinct s.paths p v.distinct (replace_none-Avoids s.paths p missing);
        })
  | inr ((old, new), found) ↦
      let r = replace_path-Replaced p s.paths found in
      rw (found, add)
        (record { in_range = omega (arith, r.same_length); distinct = r.distinct v.distinct })
]

pub next_within_le : (next count : ℕ) → next_within next count ≤ count - 1
next_within_le next count = ground arith

pub remove-IsValid : (s : ClientPathSet) (stream : ℕ) → IsValid s → IsValid (remove s stream).1
unfolding remove
remove-IsValid s stream v = elim (Option-cases (remove_path stream s.paths)) [
  | inl missing ↦ rw (missing, remove) v
  | inr ((old, new), found) ↦
      let r = remove_path-Removed stream s.paths found in
      rw (found, remove)
        (record { in_range = next_within_le s.next (length new); distinct = r.distinct v.distinct })
]

positive : (paths : List ClientPath) → (length paths == 0) ≡ false → 0 < length paths
positive paths h = ground arith

pub next_path-IsValid : (s : ClientPathSet) (now : ℕ) → IsValid s → IsValid (next_path s now).1
unfolding next_path
next_path-IsValid s now v = elim (Bool-cases (length s.paths == 0)) [
  | inl empty ↦ rw empty v
  | inr some_path ↦ rw some_path (record {
    in_range = omega (
      arith,
      mod-lt (search_from s now (s.next % length s.paths) 0 (length s.paths) + 1)
          (positive s.paths some_path),
    );
    distinct = v.distinct;
  })
]

-- One call of a method that changes the set.
pub data Op : Type 0 where
  adds : ClientPath → Op
  picks : ℕ → Op
  removes : ℕ → Op
  succeeds : ℕ → Op
  fails : ℕ → ℕ → Op

pub step : ClientPathSet → Op → ClientPathSet
step s (adds p) = (add s p).1
step s (picks now) = (next_path s now).1
step s (removes stream) = (remove s stream).1
step s (succeeds id) = mark_success s id
step s (fails id now) = (mark_failure s id now).1

pub step-IsValid : (s : ClientPathSet) (op : Op) → IsValid s → IsValid (step s op)
unfolding step mark_success mark_failure
step-IsValid s (adds p) v = add-IsValid s p v
step-IsValid s (picks now) v = next_path-IsValid s now v
step-IsValid s (removes stream) v = remove-IsValid s stream v
step-IsValid s (succeeds id) v = record { in_range = v.in_range; distinct = v.distinct }
step-IsValid s (fails id now) v = record { in_range = v.in_range; distinct = v.distinct }

pub run : ClientPathSet → List Op → ClientPathSet
run s [] = s
run s (op ∷ ops) = run (step s op) ops

run-IsValid : (ops : List Op) (s : ClientPathSet) → IsValid s → IsValid (run s ops)
unfolding run
run-IsValid [] s v = v
run-IsValid (op ∷ ops) s v = run-IsValid ops (step s op) (step-IsValid s op v)

-- However the goroutines' calls interleave on a set that starts with paths of different ids, `next`
-- stays the index of a path (0 if there is none), and no two paths get one id.
pub run-new-IsValid :
    (paths : List ClientPath) (ops : List Op)
    → Distinct paths
    → IsValid (run (new_client_path_set paths) ops)
run-new-IsValid paths ops d = run-IsValid ops _ (new-IsValid paths d)
