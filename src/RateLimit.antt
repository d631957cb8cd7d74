-- ===== src/RateLimit.antt =====
-- panel/api/ratelimit.go: the token bucket in front of the panel's API.
-- The source counts tokens in floats. Here one token is `unit` parts, which makes every refill
-- exact: in a nanosecond a bucket of `per_minute` requests gains `per_minute` parts of the
-- 60 * 10^9 that a token has. Rounding of floats is not modelled. Times are in nanoseconds.
pub mod Bounds
use fox_fleet.Prelude.{
  ℕ, ◌+◌, ◌-◌, ◌*◌, ◌/◌, ◌^◌, Bool, true, false, List, [], ◌∷◌, ltb, if◌then◌else◌,
}

abbrev pub second : ℕ
second = 1_000_000_000

abbrev pub unit : ℕ
unit = 60 * second

pub record RateLimiter : Type 0 where
  pub tokens : ℕ
  pub max : ℕ
  pub rate : ℕ
  pub last_tick : ℕ

unfoldable pub new_rate_limiter : ℕ → ℕ → RateLimiter
new_rate_limiter per_minute now = record {
  tokens = per_minute * unit;
  max = per_minute * unit;
  rate = per_minute;
  last_tick = now;
}

-- The bucket as a call at `now` finds it. The clock is monotonic.
unfoldable pub refill : RateLimiter → ℕ → RateLimiter
refill rl now =
    let filled = rl.tokens + (now - rl.last_tick) * rl.rate in
    record rl { tokens = if ltb rl.max filled then rl.max else filled; last_tick = now }

-- The answer of `allow`, with the wait in nanoseconds, rounded down.
unfoldable pub allow : RateLimiter → ℕ → RateLimiter × Bool × ℕ
allow rl now =
    let r = refill rl now in
    if ltb r.tokens unit
    then (r, false, (unit - r.tokens) / r.rate)
    else (record r { tokens = r.tokens - unit }, true, 0)

-- What the middleware does with a request.
pub data Verdict : Type 0 where
  serve_next : Verdict
  too_many_requests : ℕ → Verdict

-- The header `Retry-After` is the wait in whole seconds, plus one.
unfoldable pub rate_limit_middleware : RateLimiter → ℕ → RateLimiter × Verdict
unfolding allow
rate_limit_middleware rl now =
    let (rl', admitted, wait) = allow rl now in
    (rl', if admitted then serve_next else too_many_requests (wait / second + 1))

-- The requests that a series of arrival times lets through.
unfoldable pub admitted : RateLimiter → List ℕ → RateLimiter × ℕ
admitted rl [] = (rl, 0)
admitted rl (t ∷ ts) =
    let (rl', verdict) = rate_limit_middleware rl t in
    let (rl'', n) = admitted rl' ts in
    (rl'', elim verdict [ serve_next ↦ n + 1 | too_many_requests _ ↦ n ])
