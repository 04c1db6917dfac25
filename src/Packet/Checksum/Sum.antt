-- ===== src/Packet/Checksum/Sum.antt =====
-- The loops of the checksum against the plain sum of the 16-bit words.
use mathlib.Core.WellFounded.{Acc}
use mvp_vpn_lite.Base.{
  ℕ, ◌+◌, ◌-◌, ◌*◌, ◌%◌, ◌^◌, ◌≤◌, ◌<◌, ◌≡◌, ◌∙◌, ap, arith, List, [], ◌∷◌, length, All, IsByte,
  lt_wf, ◌↔◌, ◌==◌, if◌then◌else◌,
}
use mvp_vpn_lite.Base.Bits.{bit_or_byte, bit_and_low16}
use mvp_vpn_lite.Packet.Checksum.{carry, add_words, fold_carries, checksum}

-- The big-endian words of a slice, an odd byte at the end being the high half of a word.
abbrev pub word_sum : List ℕ → ℕ
word_sum [] = 0
word_sum (a ∷ []) = a * 256
word_sum (a ∷ b ∷ rest) = a * 256 + b + word_sum rest

pub word_sum_bound :
    (bytes : List ℕ) → All IsByte bytes → word_sum bytes * 2 ≤ (length bytes + 1) * 65535
word_sum_bound [] h = omega arith
word_sum_bound (a ∷ []) h = omega arith
word_sum_bound (a ∷ b ∷ rest) h = omega (arith, word_sum_bound rest h.1.1)

-- Without a wrap the loop adds the words.
pub add_words-word_sum :
    (bytes : List ℕ) (sum : ℕ)
    → All IsByte bytes
    → sum + word_sum bytes < 2 ^ 32
    → add_words bytes sum ≡ sum + word_sum bytes
unfolding add_words
add_words-word_sum [] sum h lt = omega arith
add_words-word_sum (a ∷ []) sum h lt = omega arith
add_words-word_sum (a ∷ b ∷ rest) sum h lt =
    ground (arith, bit_or_byte a b, add_words-word_sum rest ((sum + (a * 256 + b)) % 2 ^ 32))

-- Folding the carries keeps the residue modulo 65535, and gives 0 only for 0.
pub fold_carries_lem :
    (sum : ℕ) (w : Acc ◌<◌ sum)
    → (fold_carries sum w < 65536)
      × (fold_carries sum w % 65535 ≡ sum % 65535)
      × (0 < sum → 0 < fold_carries sum w)
      × (fold_carries sum w ≤ sum)
unfolding fold_carries
fold_carries_lem sum (Acc.intro _ smaller) = grind (
  arith,
  bit_and_low16 sum,
  λ (p : carry sum < sum). fold_carries_lem (carry sum) (smaller (carry sum) p),
)

-- The one's complement value of a number: its residue modulo 65535, counted from 1, or 0 for 0.
pub ones_complement : ℕ → ℕ
ones_complement s = if s == 0 then 0 else (s - 1) % 65535 + 1

abbrev pub max_bytes : ℕ
max_bytes = 2 ^ 17 - 1

pub ones_complement_lt : (s : ℕ) → ones_complement s < 65536
unfolding ones_complement
ones_complement_lt s = ground arith

ones_complement_residue : (s : ℕ) → ones_complement s % 65535 ≡ s % 65535
unfolding ones_complement
ones_complement_residue s = ground arith

ones_complement_le : (s : ℕ) → ones_complement s ≤ s
unfolding ones_complement
ones_complement_le s = ground arith

ones_complement_unique :
    (f s : ℕ) → f < 65536 → f % 65535 ≡ s % 65535 → (0 < s → 0 < f) → f ≤ s → f ≡ ones_complement s
unfolding ones_complement
ones_complement_unique f s lt e pos le = ground arith

-- The carry loop computes it.
pub fold_carries-ones_complement :
    (sum : ℕ) (w : Acc ◌<◌ sum) → fold_carries sum w ≡ ones_complement sum
fold_carries-ones_complement sum w =
    let l = fold_carries_lem sum w in
    ones_complement_unique (fold_carries sum w) sum l.0 l.1 l.2 l.3

-- On a slice of bytes short enough that the 32-bit sum does not wrap, `Checksum` is the complement
-- of the one's complement sum of its big-endian 16-bit words.
pub checksum-word_sum :
    (bytes : List ℕ)
    → All IsByte bytes
    → length bytes ≤ max_bytes
    → checksum bytes ≡ 65535 - ones_complement (word_sum bytes)
unfolding checksum
checksum-word_sum bytes h le =
    omega (arith, folded ∙ ap ones_complement added, ones_complement_lt _)
  where
    folded :
        fold_carries (add_words bytes 0) (lt_wf.apply (add_words bytes 0))
        ≡ ones_complement (add_words bytes 0)
    folded = fold_carries-ones_complement _ _

    added : add_words bytes 0 ≡ word_sum bytes
    added = add_words-word_sum bytes 0 h (omega (arith, word_sum_bound bytes h)) ∙ omega arith

-- A checksum of 0 says that the words add up to a positive multiple of 65535.
pub checksum-zero_iff :
    (bytes : List ℕ)
    → All IsByte bytes
    → length bytes ≤ max_bytes
    → (checksum bytes ≡ 0) ↔ ((0 < word_sum bytes) × (word_sum bytes % 65535 ≡ 0))
unfolding ones_complement
checksum-zero_iff bytes h le = (
  λ e. ground (arith, checksum-word_sum bytes h le),
  λ p. ground (arith, checksum-word_sum bytes h le),
)

-- Adding the checksum to the words gives a multiple of 65535 that is not 0.
pub checksum_residue :
    (bytes : List ℕ)
    → All IsByte bytes
    → length bytes ≤ max_bytes
    → ((checksum bytes + word_sum bytes) % 65535 ≡ 0) × (0 < checksum bytes + word_sum bytes)
checksum_residue bytes h le = omega (
  arith,
  checksum-word_sum bytes h le,
  ones_complement_residue (word_sum bytes),
  ones_complement_lt (word_sum bytes),
  ones_complement_le (word_sum bytes),
)

pub checksum_lt : (bytes : List ℕ) → checksum bytes < 65536
unfolding checksum
checksum_lt bytes = omega arith
