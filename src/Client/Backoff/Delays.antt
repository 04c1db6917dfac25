-- ===== src/Client/Backoff/Delays.antt =====
-- The delays of the reconnect backoff.
use mvp_vpn_lite.Base.{ℕ, zero, suc, ◌-◌, ◌*◌, ◌^◌, ◌≤◌, ◌<◌, ◌≡◌, arith, refl, ap, ◌∙◌, min}
use native.Mathlib.Nat.{pow-suc}
use native.Mathlib.Decide.{dec_le}
use mvp_vpn_lite.Base.Int.{pos, negsuc}
use mvp_vpn_lite.Client.Backoff.{ReconnectBackoff, new_reconnect_backoff, next_delay, reset}

-- The backoff after k calls of `next`.
after : ℕ → ReconnectBackoff → ReconnectBackoff
after zero b = b
after (suc k) b = after k (next_delay b).1

-- A backoff between positive bounds, at some delay.
abbrev pub at_delay : ℕ → ℕ → ℕ → ReconnectBackoff
at_delay lo hi delay = record { min = pos lo; max = pos hi; current = pos delay }

pub next_at :
    (lo hi delay : ℕ)
    → delay ≤ hi
    → hi ≤ 2 ^ 62
    → next_delay (at_delay lo hi delay) ≡ (pos delay, at_delay lo hi (min (delay * 2) hi))
unfolding next_delay
next_at lo hi delay le fits = ground arith

power-pos : (k : ℕ) → 1 ≤ 2 ^ k
power-pos zero = omega arith
power-pos (suc k) = omega (arith, power-pos k, pow-suc 2 k)

capped : (d hi t : ℕ) → 1 ≤ t → min (min (d * 2) hi * t) hi ≡ min (d * (t * 2)) hi
capped d hi t h = elim (dec_le (d * 2) hi) [
  | yes le ↦ let left : min (d * 2) hi ≡ d * 2 = omega arith in rw left (omega arith)
  | no gt ↦
      let left : min (d * 2) hi ≡ hi = omega arith in
      let over : d * 2 * 1 ≤ d * 2 * t = grind arith in
      let more : hi * 1 ≤ hi * t = grind arith in rw left (omega arith)
]

after_bounds :
    (k : ℕ) (b : ReconnectBackoff) → ((after k b).min ≡ b.min) × ((after k b).max ≡ b.max)
unfolding after
after_bounds zero b = (refl, refl)
after_bounds (suc k) b =
    let ih = after_bounds k (next_delay b).1 in
    let same = next_bounds b in (ih.0 ∙ same.0, ih.1 ∙ same.1)
  where
    next_bounds :
        (b : ReconnectBackoff) → ((next_delay b).1.min ≡ b.min) × ((next_delay b).1.max ≡ b.max)
    next_bounds b = unfold next_delay in (ground arith, ground arith)

delay_at :
    (k lo hi delay : ℕ)
    → delay ≤ hi
    → hi ≤ 2 ^ 62
    → (next_delay (after k (at_delay lo hi delay))).0 ≡ pos (min (delay * 2 ^ k) hi)
unfolding after
delay_at zero lo hi delay le fits = rw (next_at lo hi delay le fits) (ap pos (omega arith))
delay_at (suc k) lo hi delay le fits = rw (next_at lo hi delay le fits) (
    delay_at k lo hi (min (delay * 2) hi) (omega arith) fits
    ∙ ap pos (capped delay hi (2 ^ k) (power-pos k) ∙ rw (pow-suc 2 k)))

-- Between bounds of which the upper is at most 2^62 nanoseconds, the delay after k failed dials is
-- the lower bound doubled k times, or the upper bound where that is less; after a reset the delays
-- start again from the lower bound.
delays :
    (k lo hi : ℕ)
    → lo ≤ hi
    → hi ≤ 2 ^ 62
    → let b = new_reconnect_backoff (pos lo) (pos hi) in
      ((next_delay (after k b)).0 ≡ pos (min (lo * 2 ^ k) hi)) × (reset (after k b) ≡ b)
unfolding new_reconnect_backoff reset
delays k lo hi le fits =
    (delay_at k lo hi lo le fits, ground (arith, after_bounds k (at_delay lo hi lo)))

-- From a lower bound of 2^62 nanoseconds on, the doubling leaves the int64 range: where the upper bound
-- is larger than the lower one, the delay after the first is negative.
pub delays_overflow :
    (lo hi : ℕ)
    → 2 ^ 62 ≤ lo
    → lo < hi
    → hi < 2 ^ 63
    → (n : ℕ) × ((next_delay (next_delay (new_reconnect_backoff (pos lo) (pos hi))).1).0 ≡ negsuc n)
unfolding new_reconnect_backoff next_delay
delays_overflow lo hi big lt fits = (2 ^ 64 - 1 - lo * 2, ground arith)
