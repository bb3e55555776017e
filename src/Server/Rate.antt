-- ===== src/Server/Rate.antt =====
-- The token bucket of a connection: crates/kboard-server/src/limits.rs, `RateLimiter`. Instants are
-- in nanoseconds.
use k_board.Common.{ℕ, ◌+◌, ◌-◌, ◌*◌, ◌/◌, ◌%◌, ◌^◌, Bool, true, false, leb, if◌then◌else◌}
use k_board.Common.Float.{F64}
use k_board.Common.Float.Arith.{
  float_add, float_sub, float_mul, float_div, float_min, less_or_equal, round_ratio,
}

-- 60.0, 120.0 and 1.0.
abbrev pub rate_per_second : F64
rate_per_second = 4633641066610819072

abbrev pub rate_burst : F64
rate_burst = 4638144666238189568

abbrev pub one : F64
one = 4607182418800017408

abbrev pub max_rate_strikes : ℕ
max_rate_strikes = 20

abbrev pub nanos_per_second : ℕ
nanos_per_second = 10 ^ 9

-- A natural number `as f64`.
unfoldable pub as_float : ℕ → F64
as_float n = round_ratio (n * 2 ^ 1074) 1

-- `Duration::as_secs_f64`.
unfoldable pub as_seconds : ℕ → F64
as_seconds nanos =
    float_add (as_float (nanos / nanos_per_second))
      (float_div (as_float (nanos % nanos_per_second)) (as_float nanos_per_second))

-- `strikes` is a `u32`.
pub record RateLimiter : Type 0 where
  pub tokens : F64
  pub last_refill : ℕ
  pub strikes : ℕ

unfoldable pub new : ℕ → RateLimiter
new now = record { tokens = rate_burst; last_refill = now; strikes = 0 }

-- The tokens after the time since the last frame; `duration_since` saturates at zero.
unfoldable pub refilled : RateLimiter → ℕ → F64
refilled l now =
    float_min (float_add l.tokens (float_mul (as_seconds (now - l.last_refill)) rate_per_second))
      rate_burst

-- `allow`: the limiter afterwards, and whether the frame is let through. `saturating_sub` stops at
-- zero.
unfoldable pub allow : RateLimiter → ℕ → RateLimiter × Bool
allow l now =
    let tokens = refilled l now in
    if less_or_equal one tokens
    then (
      record { tokens = float_sub tokens one; last_refill = now; strikes = l.strikes - 1 },
      true,
    )
    else (record { tokens = tokens; last_refill = now; strikes = (l.strikes + 1) % 2 ^ 32 }, false)

unfoldable pub should_disconnect : RateLimiter → Bool
should_disconnect l = leb max_rate_strikes l.strikes
