-- ===== src/Base/Bits.antt =====
-- The masks and the disjoint `|` of the sources, as arithmetic, at every width.
use Prim.Native.Nat.{
  ℕ, zero, suc, ◌+◌, ◌*◌, ◌/◌, ◌%◌, ◌≤◌, ◌<◌, min, max, bit_and, bit_or, digits, bit_and-bitwise,
  bit_or-bitwise,
}
use mathlib.Core.Path.{◌≡◌, refl, ap, ◌∙◌}
use native.Mathlib.Omega.{arith}

module _ (rest : ℕ → ℕ) (digit : ℕ → ℕ → ℕ) where
  -- Fuel that covers the first number is as good as any other.
  enough :
      (number other more less : ℕ)
      → number ≤ less
      → number ≤ more
      → digits rest digit less number other ≡ digits rest digit more number other
  enough zero other zero zero hl hm = refl
  enough zero other zero (suc less) hl hm = refl
  enough zero other (suc more) zero hl hm = refl
  enough zero other (suc more) (suc less) hl hm = refl
  enough (suc number) other zero less hl hm = absurd (omega arith)
  enough (suc number) other (suc more) zero hl hm = absurd (omega arith)
  enough (suc number) other (suc more) (suc less) hl hm =
      let tails = enough (suc number / 2) (other / 2) more less (omega arith) (omega arith) in
      ap (λ high. high * 2 + digit (suc number % 2) (other % 2)) tails

  -- The lowest digit of the combination, apart from the others.
  lowest :
      (number other : ℕ)
      → digits rest digit (suc number) (suc number) other
        ≡ digits rest digit (suc number / 2) (suc number / 2) (other / 2) * 2
          + digit (suc number % 2) (other % 2)
  lowest number other =
      ap (λ high. high * 2 + digit (suc number % 2) (other % 2))
        (enough (suc number / 2) (other / 2) (suc number / 2) number (omega arith) (omega arith))

zero-bit_or : (other : ℕ) → bit_or 0 other ≡ other
zero-bit_or = bit_or-bitwise 0

zero-bit_and : (other : ℕ) → bit_and 0 other ≡ 0
zero-bit_and = bit_and-bitwise 0

or_halves : (x y : ℕ) → max (x % 2) (y % 2) + bit_or (x / 2) (y / 2) * 2 ≡ bit_or x y
or_halves zero y = omega (zero-bit_or (y / 2), zero-bit_or y, arith)
or_halves (suc x) y =
    let head = bit_or-bitwise (suc x / 2) (y / 2) in
    omega (lowest (λ t. t) max x y, bit_or-bitwise (suc x) y, head, arith)

and_halves : (x y : ℕ) → min (x % 2) (y % 2) + bit_and (x / 2) (y / 2) * 2 ≡ bit_and x y
and_halves zero y = omega (zero-bit_and (y / 2), zero-bit_and y, arith)
and_halves (suc x) y =
    let head = bit_and-bitwise (suc x / 2) (y / 2) in
    omega (lowest (λ t. zero) min x y, bit_and-bitwise (suc x) y, head, arith)

-- Against zero, by halving: `bound` is at least the number.
against_zero :
    (bound number : ℕ) → number ≤ bound → (bit_and number 0 ≡ 0) × (bit_or number 0 ≡ number)
against_zero bound zero h = (refl, refl)
against_zero zero (suc number) h = absurd (omega arith)
against_zero (suc bound) (suc number) h =
    let halves = against_zero bound (suc number / 2) (omega arith) in
    (
      omega (arith, halves, and_halves (suc number) 0),
      omega (arith, halves, or_halves (suc number) 0),
    )

bit_and-zero : (a : ℕ) → bit_and a 0 ≡ 0
bit_and-zero a = (against_zero a a (omega arith)).0

bit_or-zero : (a : ℕ) → bit_or a 0 ≡ a
bit_or-zero a = (against_zero a a (omega arith)).1

-- `a << k`
abbrev shl : ℕ → ℕ → ℕ
shl zero a = a
shl (suc k) a = shl k a * 2

bit_or-shl : (k a b : ℕ) → b < shl k 1 → bit_or (shl k a) b ≡ shl k a + b
bit_or-shl zero a zero h = bit_or-zero a ∙ omega arith
bit_or-shl zero a (suc b) h = absurd (omega arith)
bit_or-shl (suc k) a b h = omega (
  arith,
  or_halves (shl k a * 2) b,
  ap (λ t. bit_or t (b / 2)) half,
  bit_or-shl k a (b / 2) (omega arith),
)
  where
    half : shl k a * 2 / 2 ≡ shl k a
    half = omega arith

-- `a << 8 | b` adds a byte.
pub bit_or_byte : (a b : ℕ) → b < 256 → bit_or (a * 256) b ≡ a * 256 + b
bit_or_byte a b h = rw (eight a) at (bit_or-shl 8 a b h)
  where
    eight : (a : ℕ) → shl 8 a ≡ a * 256
    eight a = omega arith

-- One more bit of a mask.
mask_step :
    (a m p : ℕ) → 0 < p → bit_and (a / 2) m ≡ a / 2 % p → bit_and a (m * 2 + 1) ≡ a % (p * 2)
mask_step a m p h e = grind (arith, and_halves a (m * 2 + 1), e)

-- `1 << k - 1`
abbrev mask : ℕ → ℕ
mask zero = 0
mask (suc k) = mask k * 2 + 1

shl-pos : (k : ℕ) → 0 < shl k 1
shl-pos zero = omega arith
shl-pos (suc k) = omega (arith, shl-pos k)

bit_and_mask : (k a : ℕ) → bit_and a (mask k) ≡ a % shl k 1
bit_and_mask zero a = bit_and-zero a ∙ omega arith
bit_and_mask (suc k) a = mask_step a (mask k) (shl k 1) (shl-pos k) (bit_and_mask k (a / 2))

pub bit_and_low4 : (a : ℕ) → bit_and a 0x0f ≡ a % 16
bit_and_low4 = bit_and_mask 4

pub bit_and_low16 : (a : ℕ) → bit_and a 0xffff ≡ a % 65536
bit_and_low16 = bit_and_mask 16
