-- ===== src/Packet/Checksum.antt =====
-- internal/packet/checksum.go: the Internet checksum, and binary.BigEndian on two bytes.
pub mod Sum
pub mod Verify
mod Tests
use mathlib.Core.Logic.{dite}
use mathlib.Core.WellFounded.{Acc}
use native.Mathlib.Decide.{dec_lt}
use mvp_vpn_lite.Base.{
  ℕ, ◌+◌, ◌-◌, ◌*◌, ◌/◌, ◌%◌, ◌^◌, ◌<◌, bit_and, bit_or, arith, List, [], ◌∷◌, lt_wf,
}
use mvp_vpn_lite.Base.Bits.{bit_and_low16}

-- `for len(data) >= 2 { … }`, then the odd byte; `sum` is a uint32 and wraps.
pub add_words : List ℕ → ℕ → ℕ
add_words [] sum = sum
add_words (a ∷ []) sum = (sum + a * 256) % 2 ^ 32
add_words (a ∷ b ∷ rest) sum = add_words rest ((sum + bit_or (a * 256) b) % 2 ^ 32)

abbrev carry : ℕ → ℕ
carry sum = bit_and sum 0xffff + sum / 2 ^ 16

carry_shrinks : (sum : ℕ) → 0 < sum / 2 ^ 16 → carry sum < sum
carry_shrinks sum h = omega (arith, bit_and_low16 sum)

-- `for sum>>16 != 0 { … }`; the sum of the two halves of a uint32 does not wrap.
pub fold_carries : (sum : ℕ) → Acc ◌<◌ sum → ℕ
fold_carries sum (Acc.intro _ smaller) =
    dite (dec_lt 0 (sum / 2 ^ 16))
      (λ more. fold_carries (carry sum) (smaller (carry sum) (carry_shrinks sum more))) (λ _. sum)

pub checksum : List ℕ → ℕ
unfolding lt_wf
checksum bytes = let sum = add_words bytes 0 in 0xffff - fold_carries sum (lt_wf.apply sum) % 2 ^ 16
