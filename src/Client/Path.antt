-- ===== src/Client/Path.antt =====
-- internal/quictransport/client.go: paths, their health and the cooldown.
pub mod Cooldown
mod Tests
use mathlib.Core.Option
use Prim.Native.String.{String}
use mvp_vpn_lite.Base.{
  ℕ, ◌+◌, ◌-◌, ◌*◌, ◌%◌, ◌^◌, Bool, not, ◌&&◌, Option, ltb, ◌==◌, if◌then◌else◌,
}

-- Times and durations are nanoseconds; the zero time.Time is 0.
abbrev pub second : ℕ
second = 1_000_000_000

-- A connection and a stream are handles, 0 being nil: the code compares streams and closes them.
pub record ClientPath : Type 0 where
  pub id : ℕ
  pub address : String
  pub conn : ℕ
  pub stream : ℕ

pub record ClientPathHealth : Type 0 where
  pub consecutive_failures : ℕ
  pub cooldown_until : ℕ

-- What a map read of a missing key gives.
abbrev pub zero_health : ClientPathHealth
zero_health = record { consecutive_failures = 0; cooldown_until = 0 }

-- `health[id]`
abbrev pub health_at : (ℕ → Option ClientPathHealth) → ℕ → ClientPathHealth
health_at health id = Option.get_or (health id) zero_health

unfoldable pub is_cooling_down : ClientPathHealth → ℕ → Bool
is_cooling_down h now = not (h.cooldown_until == 0) && ltb now h.cooldown_until

unfoldable pub client_path_cooldown : ℕ → ℕ
client_path_cooldown consecutive_failures =
    if consecutive_failures == 0
    then 0
    else second * 2 ^ ((if ltb 5 consecutive_failures then 5 else consecutive_failures) - 1)
