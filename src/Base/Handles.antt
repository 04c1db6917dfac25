-- ===== src/Base/Handles.antt =====
-- Handles that are open, as a list, newest first. Closing a handle takes it out; closing one that is not
-- open, or closing it again, changes nothing.
use mvp_vpn_lite.Base.{ℕ, ◌≡◌, refl, arith, List, [], ◌∷◌, ◌==◌, if◌then◌else◌}

unfoldable pub without : ℕ → List ℕ → List ℕ
without h [] = []
without h (k ∷ handles) = let rest = without h handles in if k == h then rest else k ∷ rest

pub without_self : (h : ℕ) (l : List ℕ) → without h (h ∷ l) ≡ without h l
unfolding without
without_self h l = ground arith

pub without_idem : (h : ℕ) (l : List ℕ) → without h (without h l) ≡ without h l
unfolding without
without_idem h [] = refl
without_idem h (k ∷ l) = ground (arith, without_idem h l)

pub without_comm : (h j : ℕ) (l : List ℕ) → without h (without j l) ≡ without j (without h l)
unfolding without
without_comm h j [] = refl
without_comm h j (k ∷ l) = ground (arith, without_comm h j l)

-- A new handle is none of those that are open.
abbrev pub New : ℕ → List ℕ → Type 0
New h l = without h l ≡ l
