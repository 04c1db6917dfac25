-- ===== src/Multipath.antt =====
-- internal/multipath/scheduler.go.
pub mod Rotation
use mvp_vpn_lite.Base.{
  ℕ, ◌+◌, ◌%◌, Option, none, some, Bool, if◌then◌else◌, List, [], ◌∷◌, zero, suc,
}
use mvp_vpn_lite.Base.Int.{ℤ, pos, negsuc}

pub record RoundRobin : Type 0 where
  pub path_count : ℕ
  pub next : ℕ

-- The error of `NewRoundRobin` is its only one.
unfoldable pub new_round_robin : ℤ → Option RoundRobin
new_round_robin (pos zero) = none
new_round_robin (pos (suc n)) = some (record { path_count = suc n; next = 0 })
new_round_robin (negsuc n) = none

-- `Next()`: the index, and the scheduler after it.
unfoldable pub next_path : RoundRobin → ℕ × RoundRobin
next_path r = (r.next, record r { next = (r.next + 1) % r.path_count })
