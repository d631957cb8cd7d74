-- ===== src/Embedding.antt =====
-- data-plane/embedding/client.go: the vectors of texts, asked of a service with retries. A call of
-- `http.Client.Do`, with the redirects that the client follows, and the clock are `Outside` over a
-- state `W`; the length of a pause is not modelled.
pub mod Places
pub mod Vectors
use fox_fleet.Prelude.Int.{ℤ, pos, negsuc, leb_ℤ, pos_part}
use fox_fleet.Prelude.{
  ℕ, zero, suc, ◌+◌, String, Option, none, some, List, [], ◌∷◌, Bool, true, false, ◌==◌, ◌||◌, ltb,
  length, set, replicate, if◌then◌else◌,
}

-- Why a request has failed: with a status of the service, or before that.
pub data Failure : Type 0 where
  status : ℕ → Failure
  other : String → Failure

pub record Datum (V : Type 0) : Type 0 where
  pub embedding : V
  pub index : ℤ

pub data Reply (V : Type 0) : Type 0 where
  data_of : List (Datum V) → Reply V
  failure : Failure → Reply V

-- What `Embed` ends with; a text that the service has left out has none for a vector, and an index
-- below zero is Go's panic.
pub data Outcome (V : Type 0) : Type 0 where
  vectors : List (Option V) → Outcome V
  failed : Failure → Outcome V
  cancelled : ℕ → Failure → Outcome V
  no_error_known : Outcome V
  index_panic : Outcome V

abbrev pub is_retryable : Failure → Bool
is_retryable (status c) = c == 429 || c == 500 || c == 502 || c == 503 || c == 504
is_retryable (other e) = true

-- `NewClient` sets the default.
abbrev pub max_retries : ℤ → ℕ
max_retries n = if leb_ℤ n (pos 0) then 3 else pos_part n

pub record Outside (W V : Type 0) : Type 0 where
  pub post : List String → W → Reply V × W
  -- whether the context has ended before the pause has
  pub wait : ℕ → W → Bool × W

-- The world, and how many requests have been sent.
pub record State (W : Type 0) : Type 0 where
  pub world : W
  pub posts : ℕ

module _ {W V : Type 0} (o : Outside W V) where
  -- Each datum at its index; one past the end is left out.
  unfoldable pub place : List (Option V) → List (Datum V) → Outcome V
  place vs [] = vectors vs
  place vs (d ∷ ds) = elim d.index [
    | pos i ↦ place (if ltb i (length vs) then set vs i (some d.embedding) else vs) ds
    | negsuc i ↦ index_panic
  ]

  abbrev pub do_embed : List String → State W → Reply V × State W
  do_embed texts s =
      let (r, w) = o.post texts s.world in (r, record { world = w; posts = s.posts + 1 })

  -- The rounds after the first, `left` at most, where `attempt` of them have been and `last` is the
  -- last error.
  unfoldable pub retry : ℕ → ℕ → List String → Failure → State W → Outcome V × State W
  unfolding place
  retry zero attempt texts last s = (failed last, s)
  retry (suc left) attempt texts last s =
      let (done, w) = o.wait attempt s.world in
      let (r, t) = do_embed texts (record s { world = w }) in
      let again = λ (f : Failure). retry left (attempt + 1) texts f t in
      elim done [
        | true ↦ (cancelled attempt last, record s { world = w })
        | false ↦ elim r [
          | data_of ds ↦ (place (replicate (length texts) none) ds, t)
          | failure f ↦ elim (is_retryable f) [ true ↦ again f | false ↦ (failed f, t) ]
        ]
      ]

  unfoldable pub attempts : ℕ → List String → State W → Outcome V × State W
  unfolding place retry
  attempts zero texts s = (no_error_known, s)
  attempts (suc left) texts s =
      let (r, t) = do_embed texts s in
      elim r [
        | data_of ds ↦ (place (replicate (length texts) none) ds, t)
        | failure f ↦ elim (is_retryable f) [
          | true ↦ retry left 1 texts f t
          | false ↦ (failed f, t)
        ]
      ]

  unfoldable pub embed : ℤ → List String → State W → Outcome V × State W
  unfolding attempts
  embed retries [] s = (vectors [], s)
  embed retries (t ∷ ts) s = attempts (max_retries retries) (t ∷ ts) s
