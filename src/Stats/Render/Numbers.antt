-- ===== src/Stats/Render/Numbers.antt =====
-- The decimal text of a count is read back.
use mvp_vpn_lite.Base.{
  ℕ, zero, suc, ◌+◌, ◌-◌, ◌*◌, ◌/◌, ◌%◌, ◌^◌, ◌<◌, ◌≡◌, refl, arith, Bool, true, false, ◌&&◌, leb,
  ltb, [], ◌∷◌, ◌++◌, All, All-append, if◌then◌else◌, Bool-cases, inl, inr,
}
use mvp_vpn_lite.Stats.Render.{Text, decimal, format_uint64}

abbrev pub is_digit : ℕ → Bool
is_digit c = leb b'0' c && leb c b'9'

-- The number that a text begins with, after the digits that stand for n, and the rest.
pub read_number : ℕ → Text → ℕ × Text
read_number n [] = (n, [])
read_number n (c ∷ s) =
    let more = read_number (n * 10 + (c - b'0')) s in if is_digit c then more else (n, c ∷ s)

value : ℕ → Text → ℕ
value n [] = n
value n (c ∷ s) = value (n * 10 + (c - b'0')) s

abbrev Digits : Text → Type 0
Digits s = All (λ c. is_digit c ≡ true) s

-- The text does not go on with a digit.
abbrev pub Breaks : Text → Type 0
Breaks [] = Unit
Breaks (c ∷ s) = is_digit c ≡ false

-- n has at most that many digits.
abbrev Below : ℕ → ℕ → Type 0
Below zero n = n < 1
Below (suc k) n = Below k (n / 10)

value-append : (n : ℕ) (s t : Text) → value n (s ++ t) ≡ value (value n s) t
unfolding value
value-append n [] t = refl
value-append n (c ∷ s) t = value-append (n * 10 + (c - b'0')) s t

decimal-Digits : (fuel n : ℕ) → Digits (decimal fuel n)
unfolding decimal
decimal-Digits zero n = tt
decimal-Digits (suc fuel) n = elim (Bool-cases (ltb n 10)) [
  | inl one ↦ rw one (ground arith, tt)
  | inr more ↦ rw more (
      All-append (λ c. is_digit c ≡ true) (decimal fuel (n / 10)) _ (decimal-Digits fuel (n / 10))
        (ground arith, tt))
]

value-decimal : (fuel n : ℕ) → Below fuel n → value 0 (decimal fuel n) ≡ n
unfolding decimal value
value-decimal zero n h = omega arith
value-decimal (suc fuel) n h = elim (Bool-cases (ltb n 10)) [
  | inl one ↦ rw one (omega arith)
  | inr more ↦
      rw
        (
          more,
          value-append 0 (decimal fuel (n / 10)) ((b'0' + n % 10) ∷ []),
          value-decimal fuel (n / 10) h,
        )
        (omega arith)
]

read_number-append :
    (n : ℕ) (s rest : Text) → Digits s → Breaks rest → read_number n (s ++ rest) ≡ (value n s, rest)
unfolding read_number value
read_number-append n [] [] digits breaks = refl
read_number-append n [] (c ∷ rest) digits breaks = rw breaks refl
read_number-append n (c ∷ s) rest (digit, digits) breaks =
    rw digit (read_number-append (n * 10 + (c - b'0')) s rest digits breaks)

Below-uint64 : (n : ℕ) → n < 2 ^ 64 → Below 20 n
Below-uint64 n h = omega arith

pub read_number-format_uint64 :
    (n : ℕ) (rest : Text)
    → n < 2 ^ 64
    → Breaks rest
    → read_number 0 (format_uint64 n ++ rest) ≡ (n, rest)
unfolding format_uint64
read_number-format_uint64 n rest h breaks =
    rw (value-decimal 20 n (Below-uint64 n h)) at
      (read_number-append 0 (decimal 20 n) rest (decimal-Digits 20 n) breaks)
