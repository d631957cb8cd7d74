-- ===== src/Registry/Writes.antt =====
-- The methods of `Registry` that write to `instances`, as one kind of call, against a map from ids
-- to rows.
use mathlib.Core.Option
use fox_fleet.Prelude.{
  ℕ, ◌≡◌, refl, sym, String, Option, none, some, List, ite, if_pos, if_neg, string_discrete, arith,
  Result, ok, err, Error,
}
use fox_fleet.Registry.Rows.{
  Instance, Row, find, update, set_status, set_image_digest, set_query_token, overwrite,
}
use fox_fleet.Registry.Instances.{
  hash_of, dated, upsert, create, update_query_token, update_status, update_image_digest, delete,
}
use fox_fleet.Registry.Lookup.{find-update_self, find-update_ne, find-append, find-delete}

pub data Write : Type 0 where
  creates : ℕ → Instance → Write
  sets_status : String → String → Write
  sets_digest : String → String → Write
  sets_token : String → String → Write
  deletes : String → Write

update-refines :
    (id j : String) (f : Row → Row) (rows : List Row)
    → ((r : Row) → (f r).id ≡ r.id)
    → find j (update id f rows)
      ≡ ite (string_discrete id j) (Option.map f (find id rows)) (find j rows)
update-refines id j f rows k = elim (string_discrete id j) [
  | yes p ↦ rw (if_pos _ p, ← p) (find-update_self id f rows k)
  | no p ↦ rw (if_neg _ p) (find-update_ne id j f rows k (λ e. p (sym e)))
]

module _ (sha256_hex : String → String) where
  abbrev pub apply : Option Error → Write → List Row → Result (Unit {0}) × List Row
  apply fault (creates now i) rows = create sha256_hex fault now i rows
  apply fault (sets_status id status) rows = update_status fault id status rows
  apply fault (sets_digest id digest) rows = update_image_digest fault id digest rows
  apply fault (sets_token id token) rows = update_query_token sha256_hex fault id token rows
  apply fault (deletes id) rows = delete fault id rows

  abbrev pub target : Write → String
  target (creates now i) = i.id
  target (sets_status id status) = id
  target (sets_digest id digest) = id
  target (sets_token id token) = id
  target (deletes id) = id

  -- What the upsert makes of the entry under the instance's id.
  abbrev pub stored : Instance → Option Row → Option Row
  stored i none = some (record { inst = i; query_token_hash = hash_of sha256_hex i.query_token })
  stored i (some r) = some (overwrite i (hash_of sha256_hex i.query_token) r)

  -- What a successful write makes of the entry under its id.
  abbrev pub effect : Write → Option Row → Option Row
  effect (creates now i) e = stored (dated now i) e
  effect (sets_status id status) e = Option.map (set_status status) e
  effect (sets_digest id digest) e = Option.map (set_image_digest digest) e
  effect (sets_token id token) e = Option.map (set_query_token token (sha256_hex token)) e
  effect (deletes id) e = none

  -- A write that fails changes nothing.
  pub apply-error :
      (fault : Option Error) (w : Write) (rows : List Row) {e : Error} {rows' : List Row}
      → apply fault w rows ≡ (err e, rows')
      → rows' ≡ rows
  unfolding create upsert update_status update_image_digest update_query_token delete
  apply-error fault (creates now i) rows h = ground arith
  apply-error fault (sets_status id status) rows h = ground arith
  apply-error fault (sets_digest id digest) rows h = ground arith
  apply-error fault (sets_token id token) rows h = ground arith
  apply-error fault (deletes id) rows h = ground arith

  upsert-refines :
      (i : Instance) (rows rows' : List Row) (j : String)
      → upsert sha256_hex i rows ≡ (ok tt, rows')
      → find j rows' ≡ ite (string_discrete i.id j) (stored i (find i.id rows)) (find j rows)
  unfolding upsert
  upsert-refines i rows rows' j h =
      let hash = hash_of sha256_hex i.query_token in
      let x : Row = record { inst = i; query_token_hash = hash } in
      ground
        (arith, find-append j rows x, update-refines i.id j (overwrite i hash) rows (λ r. refl))

  -- A write that succeeds changes the entry under its id as `effect` says, and no other.
  pub apply-refines :
      (fault : Option Error) (w : Write) (rows : List Row) {rows' : List Row} (j : String)
      → apply fault w rows ≡ (ok tt, rows')
      → find j rows'
        ≡ ite (string_discrete (target w) j) (effect w (find (target w) rows)) (find j rows)
  unfolding create update_status update_image_digest update_query_token delete
  apply-refines fault (creates now i) rows {rows'} j h =
      upsert-refines (dated now i) rows rows' j (ground arith)
  apply-refines fault (sets_status id status) rows j h =
      ground (arith, update-refines id j (set_status status) rows (λ r. refl))
  apply-refines fault (sets_digest id digest) rows j h =
      ground (arith, update-refines id j (set_image_digest digest) rows (λ r. refl))
  apply-refines fault (sets_token id token) rows j h =
      ground
        (arith, update-refines id j (set_query_token token (sha256_hex token)) rows (λ r. refl))
  apply-refines fault (deletes id) rows j h = ground (arith, find-delete id j rows)
