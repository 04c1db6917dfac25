-- ===== src/Client/Backoff/Intervals.antt =====
-- What normalizeTUNReconnectIntervals accepts.
use mvp_vpn_lite.Base.{ℕ, ◌*◌, ◌≤◌, ◌≡◌, ◌↔◌, arith, ok, if◌then◌else◌}
use mvp_vpn_lite.Base.Int.{ℤ, pos, negsuc, eqb_ℤ}
use mvp_vpn_lite.Client.Path.{second}
use mvp_vpn_lite.Client.Backoff.{normalize_tun_reconnect_intervals}

-- A zero interval stands for the default.
abbrev pub with_default : ℤ → ℕ → ℤ
with_default d default = if eqb_ℤ d (pos 0) then pos default else d

-- The intervals are accepted exactly when, with 1 and 30 seconds in place of zeros, neither is
-- negative and the first is at most the second; so an accepted minimum is positive and at most the
-- maximum.
pub normalize_iff :
    (min_delay max_delay : ℤ) (lo hi : ℕ)
    → (normalize_tun_reconnect_intervals min_delay max_delay ≡ ok (pos lo, pos hi)) ↔ (
        (with_default min_delay second ≡ pos lo)
        × (with_default max_delay (30 * second) ≡ pos hi)
        × (1 ≤ lo)
        × (lo ≤ hi))
unfolding normalize_tun_reconnect_intervals
normalize_iff (pos m) (pos n) lo hi = (λ e. ground arith, λ e. ground arith)
normalize_iff (pos m) (negsuc n) lo hi = (λ e. ground arith, λ e. ground arith)
normalize_iff (negsuc m) n lo hi = (λ e. ground arith, λ e. ground arith)

-- Whatever is accepted is positive: a negative interval is never returned.
pub normalize_pos :
    (min_delay max_delay lo hi : ℤ)
    → normalize_tun_reconnect_intervals min_delay max_delay ≡ ok (lo, hi)
    → (m : ℕ) × (n : ℕ) × (lo ≡ pos m) × (hi ≡ pos n) × (1 ≤ m) × (m ≤ n)
unfolding normalize_tun_reconnect_intervals
normalize_pos a b (pos m) (pos n) e = (m, n, ground arith, ground arith, ground arith, ground arith)
normalize_pos a b (pos m) (negsuc n) e = absurd (ground arith)
normalize_pos a b (negsuc m) hi e = absurd (ground arith)
