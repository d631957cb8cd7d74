-- ===== src/Registry/Tokens.antt =====
-- The check of a query token in registry.go, which looks a token up by its hash.
use fox_fleet.Prelude.{
  ◌≡◌, ◌≢◌, ◌↔◌, ◌∙◌, String, Option, none, some, List, [], ◌∷◌, if_pos, if_neg, string_discrete,
  arith, All, true, ◌⊎◌, inl, inr, Option-cases, Error,
}
use fox_fleet.Registry.Rows.{Row, find_hash}
use fox_fleet.Registry.Instances.{valid_query_token}
use fox_fleet.Registry.Invariant.{Inv, Hashed}

-- Some row has the token.
abbrev pub HasToken : String → List Row → Type 0
HasToken token [] = ⊥
HasToken token (r ∷ rs) = (r.query_token ≡ token) ⊎ HasToken token rs

module _ (sha256_hex : String → String) where
  -- No stored token collides with the one asked for, and a digest is not empty.
  pub record Digests (token : String) (rows : List Row) : Type 0 where
    pub no_collision :
        All (λ r. sha256_hex r.query_token ≡ sha256_hex token → r.query_token ≡ token) rows
    pub not_empty : sha256_hex token ≢ ""

  find_hash_sound :
      (h : String) (rs : List Row) (r : Row) → find_hash h rs ≡ some r → HasToken r.query_token rs
  unfolding find_hash
  find_hash_sound h [] r e = cc
  find_hash_sound h (q ∷ rs) r e = elim (string_discrete q.query_token_hash h) [
    | yes p ↦ inl (ground arith)
    | no p ↦ inr (find_hash_sound h rs r (ground arith))
  ]

  -- A token that is let in is the token of some instance.
  pub valid_query_token_sound :
      (fault : Option Error) (token : String) (rows : List Row)
      → valid_query_token sha256_hex fault token rows ≡ true
      → HasToken token rows
  unfolding valid_query_token
  valid_query_token_sound fault token rows h =
      elim (Option-cases (find_hash (sha256_hex token) rows)) [
        | inl none_found ↦ absurd (ground arith)
        | inr (r, found) ↦
            let same : r.query_token ≡ token = ground arith in
            rw same at (find_hash_sound (sha256_hex token) rows r found)
      ]

  hash_agrees :
      (token : String) (r : Row)
      → Hashed sha256_hex r
      → (sha256_hex r.query_token ≡ sha256_hex token → r.query_token ≡ token)
      → sha256_hex token ≢ ""
      → r.query_token_hash ≡ sha256_hex token
      → r.query_token ≡ token
  hash_agrees token r h c n e = ground (arith, c)

  find_hash_complete :
      (token : String) (rows : List Row)
      → token ≢ ""
      → All (Hashed sha256_hex) rows
      → Digests token rows
      → HasToken token rows
      → (r : Row) × (find_hash (sha256_hex token) rows ≡ some r) × (r.query_token ≡ token)
  unfolding find_hash
  find_hash_complete token [] t v d m = absurd m
  find_hash_complete token (r ∷ rs) t v d m =
      elim (string_discrete r.query_token_hash (sha256_hex token)) [
        | yes p ↦ (
          r,
          if_pos _ p (some r) (find_hash (sha256_hex token) rs),
          hash_agrees token r v.0 d.no_collision.0 d.not_empty p,
        )
        | no p ↦
            let rest : HasToken token rs = ground arith in
            let d' : Digests token rs = record {
              no_collision = d.no_collision.1;
              not_empty = d.not_empty;
            } in
            let (x, found, same) = find_hash_complete token rs t v.1 d' rest in
            (x, if_neg _ p (some r) (find_hash (sha256_hex token) rs) ∙ found, same)
      ]

  -- A token that some instance has is let in, where the query does not fail.
  pub valid_query_token_complete :
      (token : String) (rows : List Row)
      → token ≢ ""
      → Inv sha256_hex rows
      → Digests token rows
      → HasToken token rows
      → valid_query_token sha256_hex none token rows ≡ true
  unfolding valid_query_token
  valid_query_token_complete token rows t v d m =
      let (r, found, same) = find_hash_complete token rows t v.hashed d m in ground arith

  -- On a table that the methods have made, a token is let in exactly where an instance has it:
  -- it is not empty, the query does not fail, no digests collide and none is empty.
  pub valid_query_token_iff :
      (token : String) (rows : List Row)
      → token ≢ ""
      → Inv sha256_hex rows
      → Digests token rows
      → (valid_query_token sha256_hex none token rows ≡ true) ↔ HasToken token rows
  valid_query_token_iff token rows t v d =
      (valid_query_token_sound none token rows, valid_query_token_complete token rows t v d)
