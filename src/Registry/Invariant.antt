-- ===== src/Registry/Invariant.antt =====
-- What every method of `Registry` keeps: the ids are a key, no two instances share a port, and the
-- hash column belongs to the token beside it.
use fox_fleet.Prelude.{
  ℕ, ◌≡◌, refl, String, Option, none, some, List, [], ◌∷◌, ◌++◌, if_pos, if_neg, string_discrete,
  arith, All, inl, inr, Error, Bool-cases, Option-cases, ◌⊎◌,
}
use fox_fleet.Registry.Rows.{
  Instance, Row, find, update, delete_where, port_taken, set_status, set_image_digest,
  set_query_token,
}
use fox_fleet.Registry.Instances.{
  hash_of, dated, upsert, create, update_query_token, update_status, update_image_digest, delete,
}
use fox_fleet.Registry.Unique.{Unique, Unique-update, Unique-move, Unique-append, Unique-delete}
use fox_fleet.Registry.Writes.{Write, creates, sets_status, sets_digest, sets_token, deletes, apply}

module _ (sha256_hex : String → String) where
  -- The hash column is the hash of the token, or both are empty.
  abbrev pub Hashed : Row → Type 0
  Hashed r =
      (r.query_token_hash ≡ sha256_hex r.query_token)
      ⊎ ((r.query_token ≡ "") × (r.query_token_hash ≡ ""))

  pub record Inv (rows : List Row) : Type 0 where
    pub unique : Unique rows
    pub hashed : All Hashed rows

  All-Hashed-update :
      (id : String) (f : Row → Row) (rows : List Row)
      → ((r : Row) → Hashed r → Hashed (f r))
      → All Hashed rows
      → All Hashed (update id f rows)
  unfolding update
  All-Hashed-update id f [] k a = tt
  All-Hashed-update id f (r ∷ rs) k a = elim (string_discrete r.id id) [
    | yes p ↦ rw (if_pos _ p) (k r a.0, All-Hashed-update id f rs k a.1)
    | no p ↦ rw (if_neg _ p) (a.0, All-Hashed-update id f rs k a.1)
  ]

  All-Hashed-append :
      (rows : List Row) (x : Row) → All Hashed rows → Hashed x → All Hashed (rows ++ x ∷ [])
  All-Hashed-append [] x a h = (h, tt)
  All-Hashed-append (r ∷ rs) x a h = (a.0, All-Hashed-append rs x a.1 h)

  All-Hashed-delete :
      (id : String) (rows : List Row) → All Hashed rows → All Hashed (delete_where id rows)
  unfolding delete_where
  All-Hashed-delete id [] a = tt
  All-Hashed-delete id (r ∷ rs) a = elim (string_discrete r.id id) [
    | yes p ↦ rw (if_pos _ p) (All-Hashed-delete id rs a.1)
    | no p ↦ rw (if_neg _ p) (a.0, All-Hashed-delete id rs a.1)
  ]

  hash_of-Hashed :
      (i : Instance)
      → Hashed (record { inst = i; query_token_hash = hash_of sha256_hex i.query_token })
  unfolding hash_of
  hash_of-Hashed i = ground arith

  Inv-update :
      (id : String) (f : Row → Row) (rows : List Row)
      → ((r : Row) → ((f r).id ≡ r.id) × ((f r).port ≡ r.port))
      → ((r : Row) → Hashed r → Hashed (f r))
      → Inv rows
      → Inv (update id f rows)
  Inv-update id f rows k h v = record {
    unique = Unique-update id f rows k v.unique;
    hashed = All-Hashed-update id f rows h v.hashed;
  }

  upsert-Inv : (i : Instance) (rows : List Row) → Inv rows → Inv (upsert sha256_hex i rows).1
  unfolding upsert
  upsert-Inv i rows v = elim (Bool-cases (port_taken i.id i.port rows)) [
    | inl taken ↦ rw (taken, upsert) v
    | inr free ↦ elim (Option-cases (find i.id rows)) [
      | inl absent ↦
          rw (free, absent, upsert)
            (record {
              unique = Unique-append rows _ absent free v.unique;
              hashed = All-Hashed-append rows _ v.hashed (hash_of-Hashed i);
            })
      | inr (r, found) ↦
          rw (free, found, upsert)
            (record {
              unique = Unique-move i.id i.port _ rows (λ q. (refl, refl)) free v.unique;
              hashed = All-Hashed-update i.id _ rows (λ q _. hash_of-Hashed i) v.hashed;
            })
    ]
  ]

  create-Inv :
      (fault : Option Error) (now : ℕ) (i : Instance) (rows : List Row)
      → Inv rows
      → Inv (create sha256_hex fault now i rows).1
  unfolding create
  create-Inv (some e) now i rows v = v
  create-Inv none now i rows v = ground (arith, upsert-Inv (dated now i) rows v)

  -- Every write keeps the invariant, whether it succeeds or fails.
  pub apply-Inv :
      (fault : Option Error) (w : Write) (rows : List Row)
      → Inv rows
      → Inv (apply sha256_hex fault w rows).1
  unfolding update_status update_image_digest update_query_token delete
  apply-Inv fault (creates now i) rows v = create-Inv fault now i rows v
  apply-Inv (some e) (sets_status id status) rows v = v
  apply-Inv none (sets_status id status) rows v =
      ground (arith, Inv-update id (set_status status) rows (λ r. (refl, refl)) (λ r h. h) v)
  apply-Inv (some e) (sets_digest id digest) rows v = v
  apply-Inv none (sets_digest id digest) rows v =
      ground (arith, Inv-update id (set_image_digest digest) rows (λ r. (refl, refl)) (λ r h. h) v)
  apply-Inv (some e) (sets_token id token) rows v = v
  apply-Inv none (sets_token id token) rows v = ground (
    arith,
    Inv-update id (set_query_token token (sha256_hex token)) rows (λ r. (refl, refl))
        (λ r h. inl refl) v,
  )
  apply-Inv (some e) (deletes id) rows v = v
  apply-Inv none (deletes id) rows v =
      ground (arith, Unique-delete id rows v.unique, All-Hashed-delete id rows v.hashed)
