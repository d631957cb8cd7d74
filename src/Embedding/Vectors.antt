-- ===== src/Embedding/Vectors.antt =====
-- What `Embed` gives, and how often it asks.
use fox_fleet.Prelude.Int.{ℤ, pos, negsuc}
use fox_fleet.Prelude.{
  ℕ, zero, suc, ◌+◌, ◌≤◌, ◌≡◌, refl, ◌⊎◌, String, List, ◌∷◌, true, none, length, replicate, arith,
  Bool-cases, inl, inr,
}
use fox_fleet.Embedding.{
  Failure, Datum, Reply, data_of, failure, Outcome, vectors, failed, cancelled, no_error_known,
  index_panic, is_retryable, max_retries, Outside, State, place, retry, attempts, embed,
}
use fox_fleet.Embedding.Places.{Placed, place-Placed}

Reply-cases :
    {V : Type 0} (r : Reply V)
    → ((ds : List (Datum V)) × (r ≡ data_of ds)) ⊎ ((f : Failure) × (r ≡ failure f))
Reply-cases (data_of ds) = inl (ds, refl)
Reply-cases (failure f) = inr (f, refl)

module _ {W V : Type 0} (o : Outside W V) where
  -- The answer to the last request, which led to the world `end`, has the data.
  abbrev pub HasData : List String → List (Datum V) → W → Type 0
  HasData texts ds end = (w : W) × (o.post texts w ≡ (data_of ds, end))

  abbrev pub HasFailed : List String → Failure → W → Type 0
  HasFailed texts f end = (w : W) × (o.post texts w ≡ (failure f, end))

  -- How a run that ends in the world `end` comes to its outcome.
  abbrev pub Answered : List String → Outcome V → W → Type 0
  Answered texts (vectors vs) end =
      (ds : List (Datum V)) × (HasData texts ds end × Placed (length texts) ds (vectors vs))
  Answered texts index_panic end =
      (ds : List (Datum V)) × (HasData texts ds end × Placed {V = V} (length texts) ds index_panic)
  Answered texts (failed f) end = HasFailed texts f end
  Answered texts (cancelled k f) end = (w : W) × (o.wait k w ≡ (true, end))
  Answered texts no_error_known end = ⊥

  Placed-Answered :
      (texts : List String) (ds : List (Datum V)) (r : Outcome V) (end : W)
      → HasData texts ds end
      → Placed (length texts) ds r
      → Answered texts r end
  Placed-Answered texts ds (vectors vs) end h p = (ds, (h, p))
  Placed-Answered texts ds index_panic end h p = (ds, (h, p))
  Placed-Answered texts ds (failed f) end h p = absurd p
  Placed-Answered texts ds (cancelled k f) end h p = absurd p
  Placed-Answered texts ds no_error_known end h p = absurd p

  fresh-Answered :
      (texts : List String) (ds : List (Datum V)) (w : W)
      → (o.post texts w).0 ≡ data_of ds
      → Answered texts (place o (replicate (length texts) none) ds) (o.post texts w).1
  fresh-Answered texts ds w q =
      Placed-Answered texts ds _ _ (w, λ i. (q i, (o.post texts w).1))
        (place-Placed o (length texts) ds)

  retry-Answered :
      (left attempt : ℕ) (texts : List String) (last : Failure) (s : State W)
      → HasFailed texts last s.world
      → Answered texts
          (retry o left attempt texts last s).0
          (retry o left attempt texts last s).1.world
        × ((retry o left attempt texts last s).1.posts ≤ s.posts + left)
  unfolding retry
  retry-Answered zero attempt texts last s h = (h, omega arith)
  retry-Answered (suc left) attempt texts last s h =
      let w = (o.wait attempt s.world).1 in
      elim (Bool-cases ((o.wait attempt s.world).0)) [
        | inl p ↦ rw (p, retry) ((s.world, λ i. (p i, w)), omega arith)
        | inr p ↦ elim (Reply-cases ((o.post texts w).0)) [
          | inl (ds, q) ↦ rw (p, q, retry) (fresh-Answered texts ds w q, omega arith)
          | inr (f, q) ↦
              let again : HasFailed texts f (o.post texts w).1 =
                (w, λ i. (q i, (o.post texts w).1)) in
              elim (Bool-cases (is_retryable f)) [
                | inr b ↦ rw (p, q, b, retry) (again, omega arith)
                | inl b ↦
                    let rest =
                      retry-Answered left (attempt + 1) texts f
                        (record { world = (o.post texts w).1; posts = s.posts + 1 }) again in
                    rw (p, q, b, retry) (rest.0, omega (arith, rest.1))
              ]
        ]
      ]

  attempts-Answered :
      (left : ℕ) (texts : List String) (s : State W)
      → 1 ≤ left
      → Answered texts (attempts o left texts s).0 (attempts o left texts s).1.world
        × ((attempts o left texts s).1.posts ≤ s.posts + left)
  unfolding attempts
  attempts-Answered zero texts s h = absurd (omega arith)
  attempts-Answered (suc left) texts s h = elim (Reply-cases ((o.post texts s.world).0)) [
    | inl (ds, q) ↦ rw (q, attempts) (fresh-Answered texts ds s.world q, omega arith)
    | inr (f, q) ↦
        let w = (o.post texts s.world).1 in
        let once : HasFailed texts f w = (s.world, λ i. (q i, w)) in
        elim (Bool-cases (is_retryable f)) [
          | inr b ↦ rw (q, b, attempts) (once, omega arith)
          | inl b ↦
              let rest =
                retry-Answered left 1 texts f (record { world = w; posts = s.posts + 1 }) once in
              rw (q, b, attempts) (rest.0, omega (arith, rest.1))
        ]
  ]

  max_retries_pos : (n : ℤ) → 1 ≤ max_retries n
  max_retries_pos (pos n) = ground arith
  max_retries_pos (negsuc n) = ground arith

  -- For texts that are not none, whatever the service answers, `Embed` ends: with a place to each
  -- text, which has the vector of the last datum of its index in the last answer, or none where there
  -- is no such datum; with the panic, where that answer has an index below zero; with the failure of
  -- the last call; or as the context has ended in a pause. It makes no more calls than the retries
  -- that are set, or three where none are.
  pub embed-Answered :
      (retries : ℤ) (text : String) (texts : List String) (s : State W)
      → let q = embed o retries (text ∷ texts) s in
        Answered (text ∷ texts) q.0 q.1.world × (q.1.posts ≤ s.posts + max_retries retries)
  unfolding embed
  embed-Answered retries text texts s =
      attempts-Answered (max_retries retries) (text ∷ texts) s (max_retries_pos retries)
