-- ===== src/Packet/Checksum/Tests.antt =====
-- Runs of the checksum, and its theorems at concrete slices.
use mvp_vpn_lite.Base.{ℕ, ◌-◌, ◌≡◌, ◌≢◌, refl, arith, List, [], ◌∷◌}
use native.Mathlib.Decide.{dec_lt}
use mvp_vpn_lite.Packet.Checksum.{add_words, fold_carries, checksum}
use mvp_vpn_lite.Packet.Checksum.Sum.{ones_complement, word_sum, checksum-word_sum}
use mvp_vpn_lite.Packet.Checksum.Verify.{checksum_self, checksum_detects}

-- An IPv4 header that carries its checksum.
abbrev header : List ℕ
header =
    0x45 ∷ 0 ∷ 0 ∷ 0x73 ∷ 0 ∷ 0 ∷ 0x40 ∷ 0 ∷ 0x40 ∷ 0x11 ∷ 0xb8 ∷ 0x61 ∷ 0xc0 ∷ 0xa8 ∷ 0 ∷ 1 ∷ 0xc0
    ∷ 0xa8 ∷ 0 ∷ 0xc7 ∷ []

header_verifies : checksum header ≡ 0
unfolding checksum fold_carries add_words dec_lt
header_verifies = refl

-- The two cases of checksum_test.go.
two_bytes : checksum (0x00 ∷ 0x01 ∷ []) ≡ 0xfffe
unfolding checksum fold_carries add_words dec_lt
two_bytes = refl

odd_byte : checksum (0x01 ∷ 0x02 ∷ 0x03 ∷ []) ≡ 0xfbfd
unfolding checksum fold_carries add_words dec_lt
odd_byte = refl

checksum-word_sum_example :
    checksum (0xff ∷ 0xff ∷ 0x12 ∷ [])
    ≡ 65535 - ones_complement (word_sum (0xff ∷ 0xff ∷ 0x12 ∷ []))
checksum-word_sum_example = checksum-word_sum (0xff ∷ 0xff ∷ 0x12 ∷ []) (omega arith) (omega arith)

checksum_self_example : checksum (8 ∷ 0 ∷ 0xf7 ∷ 0xfd ∷ 0 ∷ 2 ∷ []) ≡ 0
unfolding checksum fold_carries add_words dec_lt
checksum_self_example =
    checksum_self (8 ∷ 0 ∷ []) (0 ∷ 2 ∷ []) (omega arith) (omega arith) (omega arith)

checksum_detects_example : checksum (8 ∷ 0 ∷ 0xf7 ∷ 0xfd ∷ 0 ∷ 3 ∷ []) ≢ 0
unfolding checksum fold_carries add_words dec_lt
checksum_detects_example =
    checksum_detects (8 ∷ 0 ∷ 0xf7 ∷ 0xfd ∷ []) 0 2 0 3 [] (omega arith) (omega arith) (omega arith)
      (omega arith) (omega arith) refl (omega arith)
