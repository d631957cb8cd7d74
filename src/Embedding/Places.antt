-- ===== src/Embedding/Places.antt =====
-- Where `Embed` puts the vectors of an answer.
use fox_fleet.Prelude.Int.{ℤ, pos, negsuc}
use fox_fleet.Prelude.{
  ℕ, zero, suc, ◌==◌, Bool, true, false, get_elem?, ℕ_discrete, Option-cases, ◌≢◌, ◌<◌, ◌≡◌, refl,
  sym, subst, ap, ◌∙◌, ◌⊎◌, Option, none, some, List, [], ◌∷◌, ltb, length, set, length-set,
  length-replicate, replicate, arith, Bool-cases, inl, inr, if◌then◌else◌,
}
use fox_fleet.Embedding.{
  Datum, Outcome, vectors, failed, cancelled, no_error_known, index_panic, Outside, place,
}

module _ {V : Type 0} where
  -- The vector of the last datum of an answer whose index is `i`.
  unfoldable pub vector_at : ℕ → List (Datum V) → Option V
  vector_at i [] = none
  vector_at i (d ∷ ds) =
      let rest = vector_at i ds in
      elim rest [
        | some v ↦ some v
        | none ↦ elim d.index [
          | pos j ↦ (if j == i then some d.embedding else none)
          | negsuc j ↦ none
        ]
      ]

  unfoldable pub has_negative : List (Datum V) → Bool
  has_negative [] = false
  has_negative (d ∷ ds) =
      let rest = has_negative ds in elim d.index [ pos j ↦ rest | negsuc j ↦ true ]

  -- What is made of the data of an answer for `n` texts: a place to each text, with the vector of the
  -- last datum of its index, or with none where there is no such datum.
  abbrev pub Placed : ℕ → List (Datum V) → Outcome V → Type 0
  Placed n ds (vectors vs) =
      (has_negative ds ≡ false)
      × ((i : ℕ) → get_elem? vs i ≡ (if ltb i n then some (vector_at i ds) else none))
  Placed n ds index_panic = has_negative ds ≡ true
  Placed n ds (failed f) = ⊥
  Placed n ds (cancelled k f) = ⊥
  Placed n ds no_error_known = ⊥

ℤ-cases : (z : ℤ) → ((i : ℕ) × (z ≡ pos i)) ⊎ ((i : ℕ) × (z ≡ negsuc i))
ℤ-cases (pos i) = inl (i, refl)
ℤ-cases (negsuc i) = inr (i, refl)

-- `vs` has the vectors that the data so far give to `n` texts.
abbrev Has : {V : Type 0} → ℕ → (ℕ → Option V) → List (Option V) → Type 0
Has n f vs = (i : ℕ) → get_elem? vs i ≡ (if ltb i n then some (f i) else none)

get_elem?-replicate :
    {A : Type 0} (n : ℕ) (a : A) (i : ℕ)
    → get_elem? (replicate n a) i ≡ (if ltb i n then some a else none)
get_elem?-replicate zero a i = ground arith
get_elem?-replicate (suc n) a zero = ground arith
get_elem?-replicate (suc n) a (suc i) = get_elem?-replicate n a i ∙ ground arith

get_elem?-set_same :
    {A : Type 0} (vs : List A) (j : ℕ) (a : A) → j < length vs → get_elem? (set vs j a) j ≡ some a
get_elem?-set_same [] j a h = absurd (omega arith)
get_elem?-set_same (v ∷ vs) zero a h = refl
get_elem?-set_same (v ∷ vs) (suc j) a h = get_elem?-set_same vs j a (omega arith)

get_elem?-set_other :
    {A : Type 0} (vs : List A) (j i : ℕ) (a : A) → j ≢ i → get_elem? (set vs j a) i ≡ get_elem? vs i
get_elem?-set_other [] j i a d = refl
get_elem?-set_other (v ∷ vs) zero zero a d = absurd (d refl)
get_elem?-set_other (v ∷ vs) zero (suc i) a d = refl
get_elem?-set_other (v ∷ vs) (suc j) zero a d = refl
get_elem?-set_other (v ∷ vs) (suc j) (suc i) a d = get_elem?-set_other vs j i a (λ e. d (ap suc e))

length-place_one :
    {V : Type 0} (i : ℕ) (v : Option V) (vs : List (Option V))
    → length (if ltb i (length vs) then set vs i v else vs) ≡ length vs
length-place_one i v vs = elim (Bool-cases (ltb i (length vs))) [
  | inl p ↦ rw p (length-set vs i v)
  | inr p ↦ rw p refl
]

module _ {V : Type 0} where
  abbrev updated : ℕ → Option V → (ℕ → Option V) → ℕ → Option V
  updated j v f i = if j == i then v else f i

  Has-set :
      (n j : ℕ) (v : Option V) (f : ℕ → Option V) (vs : List (Option V))
      → length vs ≡ n
      → Has n f vs
      → Has n (updated j v f) (if ltb j (length vs) then set vs j v else vs)
  Has-set n j v f vs l h i = elim (Bool-cases (ltb j (length vs))) [
    | inl p ↦ elim (ℕ_discrete j i) [
      | yes e ↦ rw p (ground (arith, get_elem?-set_same vs j v, e))
      | no d ↦ rw p (get_elem?-set_other vs j i v d ∙ h i ∙ ground arith)
    ]
    | inr p ↦ rw p (h i ∙ ground arith)
  ]

  -- The second, where there is no first.
  abbrev over : Option V → Option V → Option V
  over (some v) x = some v
  over none x = x

  over-none : (x : Option V) → over x none ≡ x
  over-none (some v) = refl
  over-none none = refl

  abbrev Filled : ℕ → (ℕ → Option V) → List (Datum V) → Outcome V → Type 0
  Filled n f ds (vectors vs) =
      (has_negative ds ≡ false)
      × ((i : ℕ) → get_elem? vs i ≡ (if ltb i n then some (over (vector_at i ds) (f i)) else none))
  Filled n f ds index_panic = has_negative ds ≡ true
  Filled n f ds (failed _) = ⊥
  Filled n f ds (cancelled k _) = ⊥
  Filled n f ds no_error_known = ⊥

  over-vector_at :
      (d : Datum V) (ds : List (Datum V)) (j : ℕ) (f : ℕ → Option V) (i : ℕ)
      → d.index ≡ pos j
      → over (vector_at i ds) (updated j (some d.embedding) f i) ≡ over (vector_at i (d ∷ ds)) (f i)
  unfolding vector_at
  over-vector_at d ds j f i e = elim (Option-cases (vector_at i ds)) [
    | inl p ↦ elim (Bool-cases (j == i)) [ inl q ↦ rw (p, e, q) refl | inr q ↦ rw (p, e, q) refl ]
    | inr (v, p) ↦ rw p refl
  ]

  Filled-cons :
      (n : ℕ) (d : Datum V) (ds : List (Datum V)) (j : ℕ) (f : ℕ → Option V) (r : Outcome V)
      → d.index ≡ pos j
      → Filled n (updated j (some d.embedding) f) ds r
      → Filled n f (d ∷ ds) r
  unfolding has_negative
  Filled-cons n d ds j f (vectors vs) e a = (
    rw e a.0,
    λ i. a.1 i ∙ ap (λ x. if ltb i n then some x else none) (over-vector_at d ds j f i e),
  )
  Filled-cons n d ds j f index_panic e a = rw e a
  Filled-cons n d ds j f (failed _) e a = absurd a
  Filled-cons n d ds j f (cancelled k _) e a = absurd a
  Filled-cons n d ds j f no_error_known e a = absurd a

module _ {W V : Type 0} (o : Outside W V) where
  place-pos :
      (vs : List (Option V)) (d : Datum V) (ds : List (Datum V)) (j : ℕ)
      → d.index ≡ pos j
      → place o vs (d ∷ ds)
        ≡ place o (if ltb j (length vs) then set vs j (some d.embedding) else vs) ds
  unfolding place
  place-pos vs d ds j p = rw (p, place) refl

  place-Filled :
      (n : ℕ) (ds : List (Datum V)) (f : ℕ → Option V) (vs : List (Option V))
      → length vs ≡ n
      → Has n f vs
      → Filled n f ds (place o vs ds)
  unfolding place vector_at has_negative
  place-Filled n [] f vs l h = (refl, h)
  place-Filled n (d ∷ ds) f vs l h = elim (ℤ-cases d.index) [
    | inl (j, p) ↦
        let v = some d.embedding in
        let rest =
          place-Filled n ds (updated j v f) (if ltb j (length vs) then set vs j v else vs)
            (length-place_one j v vs ∙ l) (Has-set n j v f vs l h) in
        subst (Filled n f (d ∷ ds)) (sym (place-pos vs d ds j p)) (Filled-cons n d ds j f _ p rest)
    | inr (j, p) ↦ rw p refl
  ]

  Placed-Filled :
      (n : ℕ) (ds : List (Datum V)) (r : Outcome V) → Filled n (λ i. none) ds r → Placed n ds r
  Placed-Filled n ds (vectors vs) a =
      (a.0, λ i. a.1 i ∙ ap (λ x. if ltb i n then some x else none) (over-none (vector_at i ds)))
  Placed-Filled n ds index_panic a = a
  Placed-Filled n ds (failed _) a = absurd a
  Placed-Filled n ds (cancelled k _) a = absurd a
  Placed-Filled n ds no_error_known a = absurd a

  -- What `Embed` makes of the data of an answer.
  pub place-Placed : (n : ℕ) (ds : List (Datum V)) → Placed n ds (place o (replicate n none) ds)
  place-Placed n ds = Placed-Filled n ds _ (
      place-Filled n ds (λ i. none) (replicate n none) (length-replicate n none)
        (get_elem?-replicate n none))
