-- ===== src/Multipath/Rotation.antt =====
-- The schedule of the round robin.
use mvp_vpn_lite.Base.{ℕ, zero, suc, ◌+◌, ◌%◌, ◌<◌, ◌≡◌, arith, sym, ap, ◌∙◌, some}
use native.Mathlib.Nat.{mod-add-mod, add-zero, mod-eq_of_lt}
use mvp_vpn_lite.Base.Int.{ℤ, pos, negsuc}
use mvp_vpn_lite.Multipath.{RoundRobin, new_round_robin, next_path}

-- The scheduler after k calls.
pub after : ℕ → RoundRobin → RoundRobin
after zero r = r
after (suc k) r = after k (next_path r).1

pub record IsValid (r : RoundRobin) : Type 0 where
  pub in_range : r.next < r.path_count

pub new-IsValid :
    (n : ℤ) (r : RoundRobin)
    → new_round_robin n ≡ some r
    → IsValid r × (r.next ≡ 0) × (n ≡ pos r.path_count)
unfolding new_round_robin
new-IsValid (pos zero) r e = ground arith
new-IsValid (pos (suc n)) r e = ground arith
new-IsValid (negsuc n) r e = ground arith

pub next-IsValid : (r : RoundRobin) → IsValid r → IsValid (next_path r).1
unfolding next_path
next-IsValid r v = omega arith

-- The call after k others returns the index k places further, round the paths; so any
-- `path_count` calls in a row take every path once.
pub next-after :
    (k : ℕ) (r : RoundRobin) → IsValid r → (next_path (after k r)).0 ≡ (r.next + k) % r.path_count
unfolding after next_path
next-after zero r v = sym (rw add-zero (mod-eq_of_lt v.in_range))
next-after (suc k) r v =
    next-after k (record r { next = (r.next + 1) % r.path_count }) (omega arith)
    ∙ mod-add-mod (r.next + 1) r.path_count k
    ∙ ap (λ n. n % r.path_count) (omega arith)
