-- ===== src/Client/Path/Cooldown.antt =====
-- The cooldown after consecutive failures.
use mvp_vpn_lite.Base.{ℕ, zero, suc, ◌+◌, ◌*◌, ◌≤◌, ◌≡◌, arith, refl, min, lt→ltb, ne→==}
use mvp_vpn_lite.Client.Path.{second, client_path_cooldown}

cooldown_capped : (f : ℕ) → 5 ≤ f → client_path_cooldown f ≡ 16 * second
unfolding client_path_cooldown
cooldown_capped zero h = absurd (omega arith)
cooldown_capped (suc zero) h = absurd (omega arith)
cooldown_capped (suc (suc zero)) h = absurd (omega arith)
cooldown_capped (suc (suc (suc zero))) h = absurd (omega arith)
cooldown_capped (suc (suc (suc (suc zero)))) h = absurd (omega arith)
cooldown_capped (suc (suc (suc (suc (suc zero))))) h = refl
cooldown_capped (suc (suc (suc (suc (suc (suc n)))))) h =
    let f = suc (suc (suc (suc (suc (suc n))))) in
    rw (ne→== f 0 (omega arith), lt→ltb 5 f (omega arith))

-- The first failure costs a second, and each one more doubles the cooldown, up to 16 seconds.
pub cooldown_doubles :
    (client_path_cooldown 1 ≡ second)
    × ((f : ℕ)
        → 1 ≤ f
        → client_path_cooldown (f + 1) ≡ min (2 * client_path_cooldown f) (16 * second))
unfolding client_path_cooldown
cooldown_doubles = (refl, doubles)
  where
    doubles :
        (f : ℕ)
        → 1 ≤ f
        → client_path_cooldown (f + 1) ≡ min (2 * client_path_cooldown f) (16 * second)
    doubles zero h = absurd (omega arith)
    doubles (suc zero) h = refl
    doubles (suc (suc zero)) h = refl
    doubles (suc (suc (suc zero))) h = refl
    doubles (suc (suc (suc (suc zero)))) h = refl
    doubles (suc (suc (suc (suc (suc n))))) h =
        let f = suc (suc (suc (suc (suc n)))) in
        rw (cooldown_capped f (omega arith), cooldown_capped (f + 1) (omega arith)) (omega arith)

pub cooldown_le : (f : ℕ) → client_path_cooldown f ≤ 16 * second
unfolding client_path_cooldown
cooldown_le zero = omega arith
cooldown_le (suc zero) = omega arith
cooldown_le (suc (suc zero)) = omega arith
cooldown_le (suc (suc (suc zero))) = omega arith
cooldown_le (suc (suc (suc (suc zero)))) = omega arith
cooldown_le (suc (suc (suc (suc (suc n))))) =
    omega (arith, cooldown_capped (suc (suc (suc (suc (suc n))))) (omega arith))

pub cooldown-pos : (f : ℕ) → 1 ≤ f → second ≤ client_path_cooldown f
unfolding client_path_cooldown
cooldown-pos zero h = absurd (omega arith)
cooldown-pos (suc zero) h = omega arith
cooldown-pos (suc (suc zero)) h = omega arith
cooldown-pos (suc (suc (suc zero))) h = omega arith
cooldown-pos (suc (suc (suc (suc zero)))) h = omega arith
cooldown-pos (suc (suc (suc (suc (suc n))))) h =
    omega (arith, cooldown_capped (suc (suc (suc (suc (suc n))))) (omega arith))
