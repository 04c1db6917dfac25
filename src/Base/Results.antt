-- ===== src/Base/Results.antt =====
-- Go results as values: a value, an error, or a run-time panic of an index or slice expression.
use Prim.Native.Nat.{ℕ, ◌-◌}
use mathlib.Core.Logic.{◌≢◌}
use mathlib.Core.Path.{◌≡◌, refl}
use mathlib.Core.Bool.{Bool, true, false, ◌||◌}
use mathlib.Core.List.{List}
use mathlib.Core.Option.{Option, none, some}
use mvp_vpn_lite.Base.Tests.{ltb, if◌then◌else◌}
use mvp_vpn_lite.Base.Lists.{length, get_elem?, take, drop}

pub data Result (E : Type 0) (A : Type 0) : Type 0 where
  ok : A → Result E A
  err : E → Result E A
  panic : Result E A

infixl 5 ◌>>=◌ ◌>>◌
abbrev pub ◌>>=◌ : {E A B : Type 0} → Result E A → (A → Result E B) → Result E B
ok a >>= f = f a
err e >>= f = err e
panic >>= f = panic

abbrev pub ◌>>◌ : {E B : Type 0} → Result E (Unit {0}) → Result E B → Result E B
m >> k = m >>= λ _. k

-- `if b { return err }`
abbrev pub fail_if : {E : Type 0} → Bool → E → Result E (Unit {0})
fail_if true e = err e
fail_if false e = ok tt

abbrev pub map_err : {E F A : Type 0} → (E → F) → Result E A → Result F A
map_err f (ok a) = ok a
map_err f (err e) = err (f e)
map_err f panic = panic

abbrev pub or_panic : {E A : Type 0} → Option A → Result E A
or_panic none = panic
or_panic (some a) = ok a

-- The error of a nil result.
abbrev pub or_err : {E A : Type 0} → Option A → E → Result E A
or_err none e = err e
or_err (some a) e = ok a

-- `data[i]`
abbrev pub index : {E : Type 0} → List ℕ → ℕ → Result E ℕ
index xs i = or_panic (get_elem? xs i)

-- `data[lo:hi]`, of a slice with no spare capacity
abbrev pub slice : {E : Type 0} → List ℕ → ℕ → ℕ → Result E (List ℕ)
slice xs lo hi = if ltb hi lo || ltb (length xs) hi then panic else ok (take (hi - lo) (drop lo xs))

-- A chain of steps that do not panic does not panic.
pub bind-ne-panic :
    {E A B : Type 0} (m : Result E A) (f : A → Result E B)
    → m ≢ panic
    → ((a : A) → f a ≢ panic)
    → (m >>= f) ≢ panic
bind-ne-panic (ok a) f h k e = k a e
bind-ne-panic (err x) f h k e = cc
bind-ne-panic panic f h k e = absurd (h refl)

pub fail_if-ne-panic : {E : Type 0} (b : Bool) (x : E) → fail_if b x ≢ panic
fail_if-ne-panic true x e = cc
fail_if-ne-panic false x e = cc

pub or_err-ne-panic : {E A : Type 0} (o : Option A) (x : E) → or_err o x ≢ panic
or_err-ne-panic none x e = cc
or_err-ne-panic (some a) x e = cc

-- A chain that gives a value gave one at its first step.
pub bind-eq-ok :
    {E A B : Type 0} (m : Result E A) (f : A → Result E B) (b : B)
    → (m >>= f) ≡ ok b
    → (a : A) × (m ≡ ok a) × (f a ≡ ok b)
bind-eq-ok (ok a) f b e = (a, refl, e)
bind-eq-ok (err x) f b e = absurd (cc e)
bind-eq-ok panic f b e = absurd (cc e)

pub or_err-eq-ok : {E A : Type 0} (o : Option A) (x : E) (a : A) → or_err o x ≡ ok a → o ≡ some a
or_err-eq-ok none x a e = absurd (cc e)
or_err-eq-ok (some b) x a e = cc e
