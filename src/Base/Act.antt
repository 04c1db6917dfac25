-- ===== src/Base/Act.antt =====
-- Code that may fail and changes a state: the state after it is there also when it fails.
use mathlib.Core.Logic.{◌≢◌}
use mathlib.Core.Path.{refl}
use mvp_vpn_lite.Base.Results.{Result, ok, err, panic}

abbrev pub Act : Type 0 → Type 0 → Type 0 → Type 0
Act S E A = S → Result E A × S

abbrev pub continue : {S E A B : Type 0} → (A → Act S E B) → Result E A × S → Result E B × S
continue f (ok a, s) = f a s
continue f (err e, s) = (err e, s)
continue f (panic, s) = (panic, s)

infixl 5 ◌>>=◌ ◌>>◌
abbrev pub ◌>>=◌ : {S E A B : Type 0} → Act S E A → (A → Act S E B) → Act S E B
◌>>=◌ m f s = continue f (m s)

abbrev pub ◌>>◌ : {S E B : Type 0} → Act S E (Unit {0}) → Act S E B → Act S E B
m >> k = m >>= λ _. k

-- A result that leaves the state alone.
abbrev pub lift : {S E A : Type 0} → Result E A → Act S E A
lift r s = (r, s)

abbrev pub modify : {S E : Type 0} → (S → S) → Act S E (Unit {0})
modify f s = (ok tt, f s)

-- The step does not panic, and keeps the property of the state, whether it fails or not.
abbrev pub Safe : {S E A : Type 0} → (S → Type 0) → Act S E A → Type 0
Safe {S} P m = (s : S) → P s → ((m s).0 ≢ panic) × P (m s).1

pub bind-Safe :
    {S E A B : Type 0} (P : S → Type 0) (m : Act S E A) (f : A → Act S E B)
    → Safe P m
    → ((a : A) → Safe P (f a))
    → Safe P (m >>= f)
bind-Safe {S} {E} {A} {B} P m f hm hf s p = continued (m s) (hm s p)
  where
    continued :
        (r : Result E A × S)
        → (r.0 ≢ panic) × P r.1
        → ((continue f r).0 ≢ panic) × P (continue f r).1
    continued (ok a, t) (_, q) = hf a t q
    continued (err x, t) (_, q) = ((λ e. cc), q)
    continued (panic, t) (np, q) = absurd (np refl)
