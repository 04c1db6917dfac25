-- ===== src/Client/Backoff.antt =====
-- internal/quictransport/client.go: reconnectBackoff and normalizeTUNReconnectIntervals. A
-- time.Duration is an int64 of nanoseconds.
pub mod Delays
pub mod Intervals
mod Tests
use mvp_vpn_lite.Base.{ℕ, ◌+◌, ◌*◌, Bool, Result, ok, err, ◌>>=◌, ◌>>◌, fail_if, if◌then◌else◌}
use mvp_vpn_lite.Base.Int.{ℤ, pos, negsuc, ltb_ℤ, eqb_ℤ, wrap64, double}
use mvp_vpn_lite.Client.Path.{second}

abbrev pub default_tun_reconnect_min_interval : ℤ
default_tun_reconnect_min_interval = pos second

abbrev pub default_tun_reconnect_max_interval : ℤ
default_tun_reconnect_max_interval = pos (30 * second)

pub record ReconnectBackoff : Type 0 where
  pub min : ℤ
  pub max : ℤ
  pub current : ℤ

unfoldable pub new_reconnect_backoff : ℤ → ℤ → ReconnectBackoff
new_reconnect_backoff min_delay max_delay = record {
  min = min_delay;
  max = max_delay;
  current = min_delay;
}

-- `next()`: the delay, and the backoff after it.
unfoldable pub next_delay : ReconnectBackoff → ℤ × ReconnectBackoff
next_delay b =
    let doubled = wrap64 (double b.current) in
    if ltb_ℤ b.current b.max
    then (b.current, record b { current = if ltb_ℤ b.max doubled then b.max else doubled })
    else (b.current, b)

unfoldable pub reset : ReconnectBackoff → ReconnectBackoff
reset b = record b { current = b.min }

pub data IntervalError : Type 0 where
  min_negative : ℤ → IntervalError
  max_negative : ℤ → IntervalError
  min_exceeds_max : ℤ → ℤ → IntervalError

unfoldable pub normalize_tun_reconnect_intervals : ℤ → ℤ → Result IntervalError (ℤ × ℤ)
normalize_tun_reconnect_intervals min_delay max_delay = do
  let min_delay = if eqb_ℤ min_delay (pos 0) then default_tun_reconnect_min_interval else min_delay
  let max_delay = if eqb_ℤ max_delay (pos 0) then default_tun_reconnect_max_interval else max_delay
  fail_if (ltb_ℤ min_delay (pos 0)) (min_negative min_delay)
  fail_if (ltb_ℤ max_delay (pos 0)) (max_negative max_delay)
  fail_if (ltb_ℤ max_delay min_delay) (min_exceeds_max min_delay max_delay)
  ok (min_delay, max_delay)
