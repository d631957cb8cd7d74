-- ===== src/Events/Webhook.antt =====
-- internal/events/webhook.go: which events go to which target, and the token bucket of each URL.
-- A token is 10^9 parts, so that a bucket of ten tokens a second gains ten parts a nanosecond:
-- the floats of the source with no rounding. The delivery itself (an HTTP request in a goroutine
-- of its own) is not modelled; `dispatch` gives the targets it is started for.
use fox_fleet.Prelude.{
  ℕ, ◌+◌, ◌-◌, ◌*◌, String, Option, none, some, List, [], ◌∷◌, Bool, true, false, ite, ltb,
  if◌then◌else◌, string_discrete,
}
use fox_fleet.Events.Event.{Event}

pub record WebhookTarget : Type 0 where
  pub url : String
  pub events : List String
  pub secret : String

pub record WebhookLimiter : Type 0 where
  pub tokens : ℕ
  pub max : ℕ
  pub rate : ℕ
  pub last_tick : ℕ

abbrev pub unit : ℕ
unit = 1_000_000_000

pub record WebhookDispatcher : Type 0 where
  pub targets : List WebhookTarget
  pub limiter : List (String × WebhookLimiter)

-- `wd.limiter[url]`, and the same entry replaced.
unfoldable pub limiter_of : String → List (String × WebhookLimiter) → Option WebhookLimiter
limiter_of url [] = none
limiter_of url ((u, l) ∷ m) = ite (string_discrete u url) (some l) (limiter_of url m)

unfoldable pub set_limiter :
    String → WebhookLimiter → List (String × WebhookLimiter) → List (String × WebhookLimiter)
set_limiter url l [] = (url, l) ∷ []
set_limiter url l ((u, k) ∷ m) =
    ite (string_discrete u url) ((u, l) ∷ m) ((u, k) ∷ set_limiter url l m)

abbrev full_limiter : ℕ → WebhookLimiter
full_limiter now = record { tokens = 10 * unit; max = 10 * unit; rate = 10; last_tick = now }

unfoldable pub limiters : ℕ → List WebhookTarget → List (String × WebhookLimiter)
unfolding set_limiter
limiters now [] = []
limiters now (t ∷ ts) = set_limiter t.url (full_limiter now) (limiters now ts)

unfoldable pub new_webhook_dispatcher : ℕ → List WebhookTarget → WebhookDispatcher
unfolding limiters
new_webhook_dispatcher now ts = record { targets = ts; limiter = limiters now ts }

-- An empty filter takes every event.
unfoldable pub is_listed : String → List String → Bool
is_listed type [] = false
is_listed type (f ∷ fs) = ite (string_discrete f type) true (is_listed type fs)

unfoldable pub matches_filter : String → List String → Bool
unfolding is_listed
matches_filter type [] = true
matches_filter type (f ∷ fs) = is_listed type (f ∷ fs)

-- One bucket at `now`: the bucket after the call, and whether it gave a token.
unfoldable pub take_token : ℕ → WebhookLimiter → WebhookLimiter × Bool
take_token now rl =
    let filled = rl.tokens + (now - rl.last_tick) * rl.rate in
    let tokens = if ltb rl.max filled then rl.max else filled in
    if ltb tokens unit
    then (record rl { tokens = tokens; last_tick = now }, false)
    else (record rl { tokens = tokens - unit; last_tick = now }, true)

-- A URL with no limiter is let through.
unfoldable pub rate_limit_allow : ℕ → String → WebhookDispatcher → WebhookDispatcher × Bool
unfolding limiter_of take_token
rate_limit_allow now url wd = elim (limiter_of url wd.limiter) [
  | none ↦ (wd, true)
  | some rl ↦
      let (rl', given) = take_token now rl in
      (record wd { limiter = set_limiter url rl' wd.limiter }, given)
]

-- The loop of `Dispatch` over the targets; `now` is the time of each round.
unfoldable pub dispatch_to :
    ℕ → Event → List WebhookTarget → WebhookDispatcher → WebhookDispatcher × List WebhookTarget
unfolding matches_filter
dispatch_to now e [] wd = (wd, [])
dispatch_to now e (t ∷ ts) wd =
    let skip = dispatch_to now e ts wd in
    let (wd', given) = rate_limit_allow now t.url wd in
    let (wd'', rest) = dispatch_to now e ts wd' in
    if matches_filter e.type t.events
    then (if given then (wd'', t ∷ rest) else (wd'', rest))
    else skip

unfoldable pub dispatch : ℕ → Event → WebhookDispatcher → WebhookDispatcher × List WebhookTarget
unfolding dispatch_to
dispatch now e wd = dispatch_to now e wd.targets wd
