-- ===== src/TunDevice/Name/Trims.antt =====
-- What the name of a device is opened under.
use Prim.Native.String.{String, [], ◌∷◌, ◌++◌}
use Prim.Native.String.append.{nil, cons}
use text.Mathlib.Text.{◌==◌ as str_eq}
use text.Mathlib.TextEquality.{eq_iff}
use mvp_vpn_lite.Base.{◌≡◌, ◌≢◌, refl, ap, arith, Bool, true, not, ◌&&◌, Bool-cases, inl, inr}
use mvp_vpn_lite.TunDevice.Name.{
  is_space, trim_left, trim_right, trim_space, default_device_name, normalize_device_name,
}

abbrev pub Blank : String → Type 0
Blank [] = Unit
Blank (c ∷ s) = (is_space c ≡ true) × Blank s

-- Whether no space comes first.
starts : String → Bool
starts [] = true
starts (c ∷ s) = not (is_space c)

trim_left-starts : (s : String) → starts (trim_left s) ≡ true
unfolding starts trim_left
trim_left-starts [] = refl
trim_left-starts (c ∷ s) = ground (arith, trim_left-starts s)

trim_left-eq_self : (s : String) → starts s ≡ true → trim_left s ≡ s
unfolding starts trim_left
trim_left-eq_self [] h = refl
trim_left-eq_self (c ∷ s) h = ground arith

trim_right-starts : (s : String) → starts s ≡ true → starts (trim_right s) ≡ true
unfolding starts trim_right
trim_right-starts [] h = refl
trim_right-starts (c ∷ s) h = ground arith

trim_right_idem : (s : String) → trim_right (trim_right s) ≡ trim_right s
unfolding trim_right
trim_right_idem [] = refl
trim_right_idem (c ∷ s) = elim (Bool-cases (is_space c && str_eq (trim_right s) "")) [
  | inl blank ↦ rw blank refl
  | inr kept ↦ rw kept (rw (trim_right_idem s) (rw kept refl))
]

trim_space_idem : (s : String) → trim_space (trim_space s) ≡ trim_space s
unfolding trim_space
trim_space_idem s =
    simp (trim_left-eq_self _ (trim_right-starts _ (trim_left-starts s)), trim_right_idem)

trim_left-Blank : (r : String) → Blank r → Blank (trim_left r)
unfolding trim_left
trim_left-Blank [] h = tt
trim_left-Blank (c ∷ r) (space, h) = rw space (trim_left-Blank r h)

trim_left-append-Blank : (l s : String) → Blank l → trim_left (l ++ s) ≡ trim_left s
unfolding trim_left
trim_left-append-Blank [] s h = ap trim_left (nil s)
trim_left-append-Blank (c ∷ l) s (space, h) = rw (cons c l s, space) (trim_left-append-Blank l s h)

trim_right-Blank : (r : String) → Blank r → trim_right r ≡ []
unfolding trim_right
trim_right-Blank [] h = refl
trim_right-Blank (c ∷ r) (space, h) = ground (arith, trim_right-Blank r h, eq_iff (trim_right r) "")

trim_right-append-Blank : (s r : String) → Blank r → trim_right (s ++ r) ≡ trim_right s
unfolding trim_right
trim_right-append-Blank [] r h = rw (nil r) (trim_right-Blank r h)
trim_right-append-Blank (c ∷ s) r h = simp (cons, trim_right-append-Blank s r h)

trim_right-trim_left-append :
    (s r : String) → Blank r → trim_right (trim_left (s ++ r)) ≡ trim_right (trim_left s)
unfolding trim_left trim_right
trim_right-trim_left-append [] r h =
    rw (nil r) (trim_right-Blank (trim_left r) (trim_left-Blank r h))
trim_right-trim_left-append (c ∷ s) r h = elim (Bool-cases (is_space c)) [
  | inl space ↦ rw (cons c s r, space) (trim_right-trim_left-append s r h)
  | inr first ↦ rw (cons c s r, first) (rw (cons c s r) at (trim_right-append-Blank (c ∷ s) r h))
]

trim_space-between :
    (l s r : String) → Blank l → Blank r → trim_space (l ++ (s ++ r)) ≡ trim_space s
unfolding trim_space
trim_space-between l s r before after =
    rw (trim_left-append-Blank l (s ++ r) before) (trim_right-trim_left-append s r after)

default_kept : normalize_device_name default_device_name ≡ default_device_name
unfolding normalize_device_name trim_space trim_left trim_right is_space
default_kept = refl

normalize_idem :
    (s : String) → normalize_device_name (normalize_device_name s) ≡ normalize_device_name s
unfolding normalize_device_name
normalize_idem s = elim (Bool-cases (str_eq (trim_space s) "")) [
  | inl blank ↦ rw blank default_kept
  | inr named ↦ rw named (rw (trim_space_idem s) (rw named refl))
]

normalize-ne-empty : (s : String) → normalize_device_name s ≢ ""
unfolding normalize_device_name
normalize-ne-empty s e = elim (Bool-cases (str_eq (trim_space s) "")) [
  | inl blank ↦ cc (rw blank at e)
  | inr named ↦ ground (arith, eq_iff (trim_space s) "", rw named at e)
]

same :
    (l s r : String)
    → Blank l
    → Blank r
    → normalize_device_name (l ++ (s ++ r)) ≡ normalize_device_name s
unfolding normalize_device_name
same l s r before after = rw (trim_space-between l s r before after) refl

blank : (l r : String) → Blank l → Blank r → normalize_device_name (l ++ r) ≡ default_device_name
unfolding normalize_device_name trim_space trim_left trim_right
blank l r before after = rw (nil r) at (same l "" r before after)

-- White space around the name of a device does not change what is opened, and a name of white space
-- only, or none, opens the default device. What is opened has a name, and asking for it under that
-- name opens it again.
normalize-between :
    (l s r : String)
    → Blank l
    → Blank r
    → (normalize_device_name (l ++ (s ++ r)) ≡ normalize_device_name s)
      × (normalize_device_name (l ++ r) ≡ default_device_name)
      × (normalize_device_name s ≢ "")
      × (normalize_device_name (normalize_device_name s) ≡ normalize_device_name s)
normalize-between l s r before after =
    (same l s r before after, blank l r before after, normalize-ne-empty s, normalize_idem s)
