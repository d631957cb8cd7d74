-- ===== src/RateLimit/Bounds.antt =====
-- What the token bucket of ratelimit.go promises.
use fox_fleet.Prelude.{ℕ, ◌+◌, ◌-◌, ◌*◌, ◌/◌, ◌≤◌, ◌<◌, ◌≡◌, refl, ◌∙◌, List, [], ◌∷◌, arith}
use native.Mathlib.Nat.{mul-le-mul_right}
use fox_fleet.RateLimit.{
  RateLimiter, serve_next, too_many_requests, second, unit, refill, rate_limit_middleware, admitted,
}

-- The bucket never holds more than its capacity.
pub record IsValid (rl : RateLimiter) : Type 0 where
  pub bounded : rl.tokens ≤ rl.max

-- Times that do not fall.
abbrev pub Monotone : ℕ → List ℕ → Type 0
Monotone t [] = Unit {0}
Monotone t (u ∷ us) = (t ≤ u) × Monotone u us

-- The end of a series that begins at `t`.
abbrev pub last_of : ℕ → List ℕ → ℕ
last_of t [] = t
last_of t (u ∷ us) = last_of u us

refill-IsValid : (rl : RateLimiter) (now : ℕ) → IsValid (refill rl now)
unfolding refill
refill-IsValid rl now = ground arith

pub middleware-IsValid : (rl : RateLimiter) (now : ℕ) → IsValid (rate_limit_middleware rl now).0
unfolding rate_limit_middleware refill
middleware-IsValid rl now = ground arith

-- A request costs a token, and a refill brings no more than the elapsed time earns.
middleware_budget :
    (rl : RateLimiter) (now : ℕ)
    → let (rl', verdict) = rate_limit_middleware rl now in
      rl'.tokens + elim verdict [ serve_next ↦ unit | too_many_requests _ ↦ 0 ]
      ≤ rl.tokens + (now - rl.last_tick) * rl.rate
unfolding rate_limit_middleware refill
middleware_budget rl now = ground arith

middleware-last_tick :
    (rl : RateLimiter) (now : ℕ) → (rate_limit_middleware rl now).0.last_tick ≡ now
unfolding rate_limit_middleware refill
middleware-last_tick rl now = ground arith

middleware-rate : (rl : RateLimiter) (now : ℕ) → (rate_limit_middleware rl now).0.rate ≡ rl.rate
unfolding rate_limit_middleware refill
middleware-rate rl now = ground arith

last_of-ge : (t : ℕ) (us : List ℕ) → Monotone t us → t ≤ last_of t us
last_of-ge t [] m = omega arith
last_of-ge t (u ∷ us) m = omega (arith, last_of-ge u us m.1)

earned_add : (a b c r : ℕ) → a ≤ b → b ≤ c → (b - a) * r + (c - b) * r ≡ (c - a) * r
earned_add a b c r h k = let e : c - a ≡ b - a + (c - b) = omega arith in rw e (omega arith)

budget_step :
    (rl : RateLimiter) (start rate : ℕ) (ts : List ℕ)
    → rl.last_tick ≡ start
    → rl.rate ≡ rate
    → Monotone start ts
    → (admitted rl ts).1 * unit ≤ rl.tokens + (last_of start ts - start) * rate
unfolding admitted
budget_step rl start rate [] e f m = omega arith
budget_step rl start rate (t ∷ ts) e f m = ground (
  arith,
  budget_step (rate_limit_middleware rl t).0 t rate ts (middleware-last_tick rl t)
      (middleware-rate rl t ∙ f) m.1,
  middleware_budget rl t,
  earned_add start t (last_of t ts) rate m.0 (last_of-ge t ts m.1),
)

-- Over any arrival times that do not fall, the requests let through cost no more than the tokens
-- at hand and what the time between the last tick and the last arrival has earned.
pub admitted_budget :
    (rl : RateLimiter) (ts : List ℕ)
    → Monotone rl.last_tick ts
    → (admitted rl ts).1 * unit ≤ rl.tokens + (last_of rl.last_tick ts - rl.last_tick) * rl.rate
admitted_budget rl ts m = budget_step rl rl.last_tick rl.rate ts refl refl m

-- The wait of a refusal, in nanoseconds and rounded up, earns what is missing of a token.
refill-rate : (rl : RateLimiter) (now : ℕ) → (refill rl now).rate ≡ rl.rate
unfolding refill
refill-rate rl now = refl

wait_enough :
    (missing rate r : ℕ) → 0 < rate → r ≡ missing / rate / second + 1 → missing ≤ r * second * rate
wait_enough missing rate r pos e =
    let w : missing / rate + 1 ≤ r * second = omega arith in
    let p = mul-le-mul_right rate w in
    let q : missing < (missing / rate + 1) * rate = grind arith in omega arith

refused_lem :
    (rl : RateLimiter) (now r : ℕ)
    → (rate_limit_middleware rl now).1 ≡ too_many_requests r
    → ((rate_limit_middleware rl now).0 ≡ refill rl now)
      × ((refill rl now).tokens < unit)
      × (r ≡ (unit - (refill rl now).tokens) / (refill rl now).rate / second + 1)
unfolding rate_limit_middleware
refused_lem rl now r h = ground arith

served_lem :
    (rl : RateLimiter) (now : ℕ)
    → unit ≤ (refill rl now).tokens
    → (rate_limit_middleware rl now).1 ≡ serve_next
unfolding rate_limit_middleware
served_lem rl now h = ground arith

-- The tokens of a bucket that had less than one when it was last looked at.
refill_twice :
    (rl : RateLimiter) (now t r : ℕ)
    → 0 < rl.rate
    → unit ≤ rl.max
    → (refill rl now).tokens < unit
    → unit - (refill rl now).tokens ≤ r * second * rl.rate
    → now + r * second ≤ t
    → unit ≤ (refill (refill rl now) t).tokens
unfolding refill
refill_twice rl now t r pos room short enough later =
    ground (arith, mul-le-mul_right {m = r * second} {n = t - now} rl.rate (omega arith))

-- A refused request that comes again after the seconds of its `Retry-After` is served, where
-- the limit is at least one request a minute.
pub retry_served :
    (rl : RateLimiter) (now t r : ℕ)
    → 0 < rl.rate
    → unit ≤ rl.max
    → (rate_limit_middleware rl now).1 ≡ too_many_requests r
    → now + r * second ≤ t
    → (rate_limit_middleware (rate_limit_middleware rl now).0 t).1 ≡ serve_next
retry_served rl now t r pos room refused later =
    let (same, short, wait) = refused_lem rl now r refused in
    let enough = wait_enough _ rl.rate r pos (rw refill-rate at wait) in
    rw same (served_lem (refill rl now) t (refill_twice rl now t r pos room short enough later))
