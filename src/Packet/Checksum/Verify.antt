-- ===== src/Packet/Checksum/Verify.antt =====
-- What the checksum is for: a slice that holds its own checksum verifies, and a changed word shows.
use mvp_vpn_lite.Base.{
  ℕ, ◌+◌, ◌*◌, ◌/◌, ◌%◌, ◌≤◌, ◌<◌, ◌≡◌, ◌≢◌, arith, List, [], ◌∷◌, ◌++◌, length, All, IsByte,
  length-append,
}
use mvp_vpn_lite.Packet.Checksum.{checksum}
use mvp_vpn_lite.Packet.Checksum.Sum.{
  word_sum, max_bytes, checksum-zero_iff, checksum_residue, checksum_lt,
}

pub word_sum_at :
    (front : List ℕ) (a b : ℕ) (back : List ℕ)
    → length front % 2 ≡ 0
    → word_sum (front ++ (a ∷ b ∷ back)) ≡ word_sum front + (a * 256 + b) + word_sum back
word_sum_at [] a b back e = omega arith
word_sum_at (x ∷ []) a b back e = absurd (omega arith)
word_sum_at (x ∷ y ∷ front) a b back e = omega (arith, word_sum_at front a b back (omega arith))

All-put_two :
    (front : List ℕ) (a b c d : ℕ) (back : List ℕ)
    → All IsByte (front ++ (a ∷ b ∷ back))
    → c < 256
    → d < 256
    → All IsByte (front ++ (c ∷ d ∷ back))
All-put_two [] a b c d back h hc hd = (hc, (hd, h.1.1))
All-put_two (x ∷ front) a b c d back h hc hd = (h.0, All-put_two front a b c d back h.1 hc hd)

-- A slice of bytes, at most 2^17 - 1 long, with a zero 16-bit field at an even offset: after
-- `PutUint16` stores the checksum of the slice in that field, the checksum of the whole is 0.
pub checksum_self :
    (front : List ℕ) (back : List ℕ)
    → length front % 2 ≡ 0
    → All IsByte (front ++ (0 ∷ 0 ∷ back))
    → length (front ++ (0 ∷ 0 ∷ back)) ≤ max_bytes
    → let c = checksum (front ++ (0 ∷ 0 ∷ back)) in
      checksum (front ++ (c / 256 % 256 ∷ c % 256 ∷ back)) ≡ 0
checksum_self front back even bytes short =
    (checksum-zero_iff _ valid size).1
      (omega (arith, total, residue), omega (arith, total, residue))
  where
    c : ℕ
    c = checksum (front ++ (0 ∷ 0 ∷ back))

    valid : All IsByte (front ++ (c / 256 % 256 ∷ c % 256 ∷ back))
    valid = All-put_two front 0 0 _ _ back bytes (omega arith) (omega arith)

    size : length (front ++ (c / 256 % 256 ∷ c % 256 ∷ back)) ≤ max_bytes
    size = omega (
      arith,
      length-append front (0 ∷ 0 ∷ back),
      length-append front (c / 256 % 256 ∷ c % 256 ∷ back),
    )

    residue :
        ((c + word_sum (front ++ (0 ∷ 0 ∷ back))) % 65535 ≡ 0)
        × (0 < c + word_sum (front ++ (0 ∷ 0 ∷ back)))
    residue = checksum_residue _ bytes short

    total :
        word_sum (front ++ (c / 256 % 256 ∷ c % 256 ∷ back))
        ≡ word_sum (front ++ (0 ∷ 0 ∷ back)) + c
    total = omega (
      arith,
      word_sum_at front 0 0 back even,
      word_sum_at front (c / 256 % 256) (c % 256) back even,
      checksum_lt (front ++ (0 ∷ 0 ∷ back)),
    )

-- In a slice that verifies, a change of one 16-bit word shows, unless it is from 0 to 0xffff or back.
pub checksum_detects :
    (front : List ℕ) (a b c d : ℕ) (back : List ℕ)
    → length front % 2 ≡ 0
    → All IsByte (front ++ (a ∷ b ∷ back))
    → c < 256
    → d < 256
    → length (front ++ (a ∷ b ∷ back)) ≤ max_bytes
    → checksum (front ++ (a ∷ b ∷ back)) ≡ 0
    → (a * 256 + b) % 65535 ≢ (c * 256 + d) % 65535
    → checksum (front ++ (c ∷ d ∷ back)) ≢ 0
checksum_detects front a b c d back even bytes hc hd short good differ bad =
    let before = (checksum-zero_iff _ bytes short).0 good in
    let after = (checksum-zero_iff _ changed size).0 bad in
    omega
      (arith, before.1, after.1, word_sum_at front a b back even, word_sum_at front c d back even)
  where
    changed : All IsByte (front ++ (c ∷ d ∷ back))
    changed = All-put_two front a b c d back bytes hc hd

    size : length (front ++ (c ∷ d ∷ back)) ≤ max_bytes
    size = omega (arith, length-append front (a ∷ b ∷ back), length-append front (c ∷ d ∷ back))
