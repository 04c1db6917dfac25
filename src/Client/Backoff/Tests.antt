-- ===== src/Client/Backoff/Tests.antt =====
-- The backoff's theorems at concrete intervals.
use mvp_vpn_lite.Base.{ℕ, ◌*◌, ◌^◌, ◌+◌, ◌≡◌, refl, arith, err}
use mvp_vpn_lite.Base.Int.{pos, negsuc}
use mvp_vpn_lite.Client.Path.{second}
use mvp_vpn_lite.Client.Backoff.{
  new_reconnect_backoff, next_delay, normalize_tun_reconnect_intervals, min_exceeds_max,
}
use mvp_vpn_lite.Client.Backoff.Delays.{delays_overflow}

-- A minimum of 40 seconds against the default maximum.
default_maximum :
    normalize_tun_reconnect_intervals (pos (40 * second)) (pos 0)
    ≡ err (min_exceeds_max (pos (40 * second)) (pos (30 * second)))
unfolding normalize_tun_reconnect_intervals
default_maximum = refl

delays_overflow_example :
    (n : ℕ) × ((next_delay
        (next_delay (new_reconnect_backoff (pos (2 ^ 62)) (pos (2 ^ 62 + 1)))).1).0
      ≡ negsuc n)
delays_overflow_example =
    delays_overflow (2 ^ 62) (2 ^ 62 + 1) (omega arith) (omega arith) (omega arith)
