-- ===== src/Stats/Flow.antt =====
-- What any sequence of calls leaves in the counters, and that its order does not matter.
use mvp_vpn_lite.Base.{ℕ, ◌+◌, ◌%◌, ◌^◌, ◌<◌, ◌≡◌, arith, refl, ap, ◌∙◌, sym, List, [], ◌∷◌, ◌++◌}
use native.Mathlib.Nat.{ℕ_set}
use mathlib.Core.Logic.{∥∥₁_elim}
use mathlib.Core.List.{Perm, Permᴰ}
use mvp_vpn_lite.Base.Int.{ℤ, pos, negsuc, pos_part}
use mvp_vpn_lite.Stats.{Counters, add_rx, add_tx, add_drop, add_error}

-- One call of a goroutine.
pub data Call : Type 0 where
  rx : ℤ → Call
  tx : ℤ → Call
  drop : Call
  error : Call

unfoldable pub call : Counters → Call → Counters
call c (rx n) = add_rx c n
call c (tx n) = add_tx c n
call c drop = add_drop c
call c error = add_error c

unfoldable pub calls : Counters → List Call → Counters
calls c [] = c
calls c (x ∷ xs) = calls (call c x) xs

pub calls-append : (c : Counters) (xs ys : List Call) → calls c (xs ++ ys) ≡ calls (calls c xs) ys
unfolding calls
calls-append c [] ys = refl
calls-append c (x ∷ xs) ys = calls-append (call c x) xs ys

-- The packets sent or dropped.
abbrev pub handled : Counters → ℕ
handled c = (c.tx_packets + c.dropped_packets) % 2 ^ 64

-- What a call adds to each counter.
abbrev pub rx_packets_of : Call → ℕ
rx_packets_of (rx n) = 1
rx_packets_of _ = 0

abbrev pub rx_bytes_of : Call → ℕ
rx_bytes_of (rx n) = pos_part n
rx_bytes_of _ = 0

abbrev pub tx_packets_of : Call → ℕ
tx_packets_of (tx n) = 1
tx_packets_of _ = 0

abbrev pub tx_bytes_of : Call → ℕ
tx_bytes_of (tx n) = pos_part n
tx_bytes_of _ = 0

abbrev pub drops_of : Call → ℕ
drops_of drop = 1
drops_of _ = 0

abbrev pub errors_of : Call → ℕ
errors_of error = 1
errors_of _ = 0

abbrev pub total : (Call → ℕ) → List Call → ℕ
total f [] = 0
total f (x ∷ xs) = f x + total f xs

-- The uint64 range of every counter.
pub record IsValid (c : Counters) : Type 0 where
  pub rx_packets_u64 : c.rx_packets < 2 ^ 64
  pub rx_bytes_u64 : c.rx_bytes < 2 ^ 64
  pub tx_packets_u64 : c.tx_packets < 2 ^ 64
  pub tx_bytes_u64 : c.tx_bytes < 2 ^ 64
  pub dropped_u64 : c.dropped_packets < 2 ^ 64
  pub errors_u64 : c.errors < 2 ^ 64

call-fields :
    (c : Counters) (x : Call)
    → IsValid c
    → call c x ≡ record {
      rx_packets = (c.rx_packets + rx_packets_of x) % 2 ^ 64;
      rx_bytes = (c.rx_bytes + rx_bytes_of x) % 2 ^ 64;
      tx_packets = (c.tx_packets + tx_packets_of x) % 2 ^ 64;
      tx_bytes = (c.tx_bytes + tx_bytes_of x) % 2 ^ 64;
      dropped_packets = (c.dropped_packets + drops_of x) % 2 ^ 64;
      errors = (c.errors + errors_of x) % 2 ^ 64;
    }
unfolding call add_rx add_tx add_drop add_error
call-fields c (rx (pos n)) v = ground arith
call-fields c (rx (negsuc n)) v = ground arith
call-fields c (tx (pos n)) v = ground arith
call-fields c (tx (negsuc n)) v = ground arith
call-fields c drop v = ground arith
call-fields c error v = ground arith

pub call-IsValid : (c : Counters) (x : Call) → IsValid c → IsValid (call c x)
call-IsValid c x v = rw (call-fields c x v) (omega arith)

-- The counters after any calls: each holds its start plus what the calls of its kind add (a packet
-- each, and the bytes of those of positive size), modulo 2^64.
pub calls-total :
    (xs : List Call) (c : Counters)
    → IsValid c
    → calls c xs ≡ record {
      rx_packets = (c.rx_packets + total rx_packets_of xs) % 2 ^ 64;
      rx_bytes = (c.rx_bytes + total rx_bytes_of xs) % 2 ^ 64;
      tx_packets = (c.tx_packets + total tx_packets_of xs) % 2 ^ 64;
      tx_bytes = (c.tx_bytes + total tx_bytes_of xs) % 2 ^ 64;
      dropped_packets = (c.dropped_packets + total drops_of xs) % 2 ^ 64;
      errors = (c.errors + total errors_of xs) % 2 ^ 64;
    }
unfolding calls
calls-total [] c v = ground arith
calls-total (x ∷ xs) c v =
    calls-total xs (call c x) (call-IsValid c x v) ∙ rw (call-fields c x v) (ground arith)

total_permuted : (f : Call → ℕ) {xs ys : List Call} → Permᴰ xs ys → total f xs ≡ total f ys
total_permuted f Permᴰ.nil = refl
total_permuted f (Permᴰ.cons e p) = omega (arith, ap f e, total_permuted f p)
total_permuted f (Permᴰ.swap e d) = omega (arith, ap f e, ap f d)
total_permuted f (Permᴰ.trans p q) = total_permuted f p ∙ total_permuted f q

total_perm : (f : Call → ℕ) {xs ys : List Call} → Perm xs ys → total f xs ≡ total f ys
total_perm f p = ∥∥₁_elim p (ℕ_set _ _) (total_permuted f)

-- The order in which the goroutines' calls interleave does not show in the counters.
pub calls_perm :
    (xs ys : List Call) (c : Counters) → IsValid c → Perm xs ys → calls c xs ≡ calls c ys
calls_perm xs ys c v p =
    calls-total xs c v
    ∙ rw
        (
          total_perm rx_packets_of p,
          total_perm rx_bytes_of p,
          total_perm tx_packets_of p,
          total_perm tx_bytes_of p,
          total_perm drops_of p,
          total_perm errors_of p,
        )
        (sym (calls-total ys c v))
