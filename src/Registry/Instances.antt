-- ===== src/Registry/Instances.antt =====
-- The methods of `Registry` on the table `instances`. Each returns its answer, and the new table
-- where it writes.
use fox_fleet.Prelude.{
  ℕ, String, Option, none, some, List, [], ◌∷◌, ◌++◌, ite, string_discrete, ◌==◌, if◌then◌else◌,
  Bool, true, false, Result, ok, err, Error, wrap, foreign, not_found, map,
}
use fox_fleet.Registry.Rows.{
  Instance, Row, find, find_hash, update, delete_where, port_taken, order_by_time, set_status,
  set_image_digest, set_query_token, overwrite,
}

-- An instance without a creation time gets the present one.
abbrev pub dated : ℕ → Instance → Instance
dated now i = record i { created_at = if i.created_at == 0 then now else i.created_at }

-- `token_hash` of the source is the hexadecimal SHA-256 of the token.
module _ (sha256_hex : String → String) where
  unfoldable pub hash_of : String → String
  hash_of token = ite (string_discrete token "") "" (sha256_hex token)

  -- INSERT … ON CONFLICT(id) DO UPDATE: the creation time of a row that exists stays.
  unfoldable pub upsert : Instance → List Row → Result (Unit {0}) × List Row
  unfolding hash_of
  upsert i rows =
      let row : Row = record { inst = i; query_token_hash = hash_of i.query_token } in
      if port_taken i.id i.port rows
      then (err (foreign "UNIQUE constraint failed: instances.port"), rows)
      else elim (find i.id rows) [
        | none ↦ (ok tt, rows ++ row ∷ [])
        | some _ ↦ (ok tt, update i.id (overwrite i row.query_token_hash) rows)
      ]

  unfoldable pub create : Option Error → ℕ → Instance → List Row → Result (Unit {0}) × List Row
  create fault now inst rows =
      let i = dated now inst in
      let fail = λ (e : Error). wrap ("registry: create" ∷ i.id ∷ []) e in
      elim fault [
        | some e ↦ (err (fail e), rows)
        | none ↦
            let (answer, rows') = upsert i rows in
            elim answer [ ok _ ↦ (ok tt, rows') | err e ↦ (err (fail e), rows') ]
      ]

  -- UPDATE instances SET query_token = ?, query_token_hash = ? WHERE id = ?
  unfoldable pub update_query_token :
      Option Error → String → String → List Row → Result (Unit {0}) × List Row
  update_query_token (some e) id token rows =
      (err (wrap ("registry: update query token" ∷ id ∷ []) e), rows)
  update_query_token none id token rows = elim (find id rows) [
    | none ↦ (err not_found, rows)
    | some _ ↦ (ok tt, update id (set_query_token token (sha256_hex token)) rows)
  ]

  -- A failed or an empty query is no match; the comparison takes constant time in the source.
  unfoldable pub valid_query_token : Option Error → String → List Row → Bool
  valid_query_token fault token rows = ite (string_discrete token "") false (elim fault [
    | some _ ↦ false
    | none ↦ elim (find_hash (sha256_hex token) rows) [
      | none ↦ false
      | some r ↦ ite (string_discrete token r.query_token) true false
    ]
  ])

unfoldable pub get : Option Error → String → List Row → Result Instance
get (some e) id rows = err (wrap ("registry: get" ∷ id ∷ []) e)
get none id rows = elim (find id rows) [ none ↦ err not_found | some r ↦ ok (r.inst) ]

unfoldable pub list : Option Error → List Row → Result (List Instance)
unfolding order_by_time
list (some e) rows = err (wrap ("registry: list" ∷ []) e)
list none rows = ok (map (λ r. r.inst) (order_by_time rows))

unfoldable pub update_status :
    Option Error → String → String → List Row → Result (Unit {0}) × List Row
update_status (some e) id status rows = (err (wrap ("registry: update status" ∷ id ∷ []) e), rows)
update_status none id status rows = elim (find id rows) [
  | none ↦ (err not_found, rows)
  | some _ ↦ (ok tt, update id (set_status status) rows)
]

unfoldable pub update_image_digest :
    Option Error → String → String → List Row → Result (Unit {0}) × List Row
update_image_digest (some e) id digest rows =
    (err (wrap ("registry: update image" ∷ id ∷ []) e), rows)
update_image_digest none id digest rows = elim (find id rows) [
  | none ↦ (err not_found, rows)
  | some _ ↦ (ok tt, update id (set_image_digest digest) rows)
]

unfoldable pub delete : Option Error → String → List Row → Result (Unit {0}) × List Row
delete (some e) id rows = (err (wrap ("registry: delete" ∷ id ∷ []) e), rows)
delete none id rows = elim (find id rows) [
  | none ↦ (err not_found, rows)
  | some _ ↦ (ok tt, delete_where id rows)
]

-- The set of ports, as the list of its members.
unfoldable pub used_ports : Option Error → List Row → Result (List ℕ)
used_ports (some e) rows = err (wrap ("registry: used ports" ∷ []) e)
used_ports none rows = ok (map (λ r. r.port) rows)

unfoldable pub get_query_token : Option Error → String → List Row → Result String
get_query_token (some e) id rows = err (wrap ("registry: get query token" ∷ id ∷ []) e)
get_query_token none id rows = elim (find id rows) [
  | none ↦ err not_found
  | some r ↦ ok (r.query_token)
]
