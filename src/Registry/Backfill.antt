-- ===== src/Registry/Backfill.antt =====
-- `backfillQueryTokens` of registry.go: every instance without a query token gets one. The random
-- tokens and the errors of the SQL engine come from a world `W`.
use fox_fleet.Prelude.{
  ◌≡◌, ◌≢◌, sym, subst, String, Option, none, some, List, [], ◌∷◌, ite, string_discrete, Result, ok,
  err, Error, arith, All, ◌⊎◌, inl, inr, Result-cases, Option-cases, true, false, Bool,
}
use fox_fleet.Registry.Rows.{Row, update, set_query_token}

-- SELECT id FROM instances WHERE query_token = ''
unfoldable without_token : List Row → List String
without_token [] = []
without_token (r ∷ rs) =
    let rest = without_token rs in ite (string_discrete r.query_token "") (r.id ∷ rest) rest

-- Every row has a token, or its id is still to come.
unfoldable listed : String → List String → Bool
listed id [] = false
listed id (i ∷ is) = let rest = listed id is in ite (string_discrete i id) true rest

abbrev Pending : List String → List Row → Type 0
Pending ids rows = All (λ r. (listed r.id ids ≡ true) ⊎ (r.query_token ≢ "")) rows

Pending-round :
    (id : String) (ids : List String) (t h : String) (rows : List Row)
    → t ≢ ""
    → Pending (id ∷ ids) rows
    → Pending ids (update id (set_query_token t h) rows)
unfolding listed update
Pending-round id ids t h [] some_token a = tt
Pending-round id ids t h (r ∷ rows) some_token a =
    ground (arith, Pending-round id ids t h rows some_token a.1)

Pending-none : (rows : List Row) → Pending [] rows → All (λ r. r.query_token ≢ "") rows
unfolding listed
Pending-none [] a = tt
Pending-none (r ∷ rows) a = (ground arith, Pending-none rows a.1)

Pending-weaken :
    (id : String) (ids : List String) (rows : List Row) → Pending ids rows → Pending (id ∷ ids) rows
unfolding listed
Pending-weaken id ids [] a = tt
Pending-weaken id ids (r ∷ rows) a = (ground arith, Pending-weaken id ids rows a.1)

Pending-all : (rows : List Row) → Pending (without_token rows) rows
unfolding without_token listed
Pending-all [] = tt
Pending-all (r ∷ rows) = elim (string_discrete r.query_token "") [
  | yes p ↦
      let e : without_token (r ∷ rows) ≡ r.id ∷ without_token rows = ground arith in
      subst (λ ids. Pending ids (r ∷ rows)) (sym e)
        (inl (ground arith), Pending-weaken r.id (without_token rows) rows (Pending-all rows))
  | no p ↦
      let e : without_token (r ∷ rows) ≡ without_token rows = ground arith in
      subst (λ ids. Pending ids (r ∷ rows)) (sym e) (inr p, Pending-all rows)
]

module _ {W : Type 0} (sha256_hex : String → String) (random_token : W → Result String × W)
    (sql_error : W → Option Error × W) where
  unfoldable backfill_loop : List String → W → List Row → Result (Unit {0}) × (W × List Row)
  backfill_loop [] w rows = (ok tt, (w, rows))
  backfill_loop (id ∷ ids) w rows =
      let (token, w1) = random_token w in
      let (fault, w2) = sql_error w1 in
      elim token [
        | err e ↦ (err e, (w1, rows))
        | ok t ↦ elim fault [
          | some e ↦ (err e, (w2, rows))
          | none ↦ backfill_loop ids w2 (update id (set_query_token t (sha256_hex t)) rows)
        ]
      ]

  unfoldable backfill_query_tokens : W → List Row → Result (Unit {0}) × (W × List Row)
  unfolding without_token
  backfill_query_tokens w rows =
      let (fault, w1) = sql_error w in
      elim fault [
        | some e ↦ (err e, (w1, rows))
        | none ↦ backfill_loop (without_token rows) w1 rows
      ]

  backfill_loop-All :
      ((w : W) (t : String) → (random_token w).0 ≡ ok t → t ≢ "")
      → (ids : List String) (w w' : W) (rows rows' : List Row)
      → backfill_loop ids w rows ≡ (ok tt, (w', rows'))
      → Pending ids rows
      → All (λ r. r.query_token ≢ "") rows'
  unfolding backfill_loop
  backfill_loop-All k [] w w' rows rows' h a =
      let e : rows ≡ rows' = ground arith in rw e at (Pending-none rows a)
  backfill_loop-All k (id ∷ ids) w w' rows rows' h a =
      let (token, w1) = random_token w in
      let (fault, w2) = sql_error w1 in
      elim (Result-cases token) [
        | inr (e, bad) ↦ absurd (ground arith)
        | inl (t, good) ↦ elim (Option-cases fault) [
          | inr (e, bad) ↦ absurd (ground arith)
          | inl fine ↦
              backfill_loop-All k ids w2 w' (update id (set_query_token t (sha256_hex t)) rows)
                rows' (ground arith) (Pending-round id ids t (sha256_hex t) rows (k w t good) a)
        ]
      ]

  -- A backfill that succeeds leaves no instance without a token, where no random token is empty.
  backfill_query_tokens-All :
      ((w : W) (t : String) → (random_token w).0 ≡ ok t → t ≢ "")
      → (w w' : W) (rows rows' : List Row) → backfill_query_tokens w rows ≡ (ok tt, (w', rows'))
      → All (λ r. r.query_token ≢ "") rows'
  unfolding backfill_query_tokens
  backfill_query_tokens-All k w w' rows rows' h = elim (Option-cases (sql_error w).0) [
    | inr (e, bad) ↦ absurd (ground arith)
    | inl fine ↦
        backfill_loop-All k (without_token rows) (sql_error w).1 w' rows rows' (ground arith)
          (Pending-all rows)
  ]
