-- ===== src/Sources/Rows.antt =====
-- A source that data-plane/source/registry.go has created, read back.
use fox_fleet.Prelude.{
  ℕ, ◌≡◌, ◌≢◌, refl, String, Option, none, some, List, [], ◌∷◌, ◌++◌, ite, string_discrete, arith,
  ok, Error, Result-cases, inl, inr,
}
use fox_fleet.Sources.{
  Config, Source, SourceRow, Json, find, insert, create, get, marshal_config, unmarshal_config,
  with_defaults,
}

find-append :
    (id : String) (row : SourceRow) (rows : List SourceRow)
    → find row.details.id rows ≡ none
    → find id (rows ++ row ∷ []) ≡ ite (string_discrete row.details.id id) (some row) (find id rows)
unfolding find
find-append id row [] h = refl
find-append id row (r ∷ rows) h = ground (arith, find-append id row rows)

module _ (json : Json) where
  -- What `json` writes of a configuration it reads back, and it writes neither of the two texts that
  -- stand for no configuration.
  pub record RoundTrip (c : Config) : Type 0 where
    pub reads_back : (text : String) → json.marshal c ≡ ok text → json.unmarshal text ≡ some c
    pub not_empty : json.marshal c ≢ ok ""
    pub not_braces : json.marshal c ≢ ok "{}"

  unmarshal-marshal :
      (c : Config) (text : String)
      → RoundTrip c
      → marshal_config json c ≡ ok text
      → unmarshal_config json text ≡ c
  unfolding marshal_config unmarshal_config
  unmarshal-marshal [] text r h = ground arith
  unmarshal-marshal (e ∷ es) text r h = ground (arith, r.reads_back text, r.not_empty, r.not_braces)

  -- A source that was created is read back with its defaults filled in, and every other source as
  -- before, where no query fails and the configuration survives its JSON.
  get-create :
      (fault : Option Error) (now : ℕ) (src : Source) (rows rows' : List SourceRow) (id : String)
      → RoundTrip src.config
      → create json fault now src rows ≡ (ok tt, rows')
      → get json none id rows'
        ≡ ite
            (string_discrete src.details.id id)
            (ok (record { details = with_defaults now src.details; config = src.config }))
            (get json none id rows)
  unfolding create insert get
  get-create fault now src rows rows' id r h =
      elim (Result-cases (marshal_config json src.config)) [
        | inr (e, bad) ↦ absurd (ground arith)
        | inl (text, good) ↦
            let row : SourceRow = record {
              details = with_defaults now src.details;
              config_json = text;
            } in
            ground (arith, find-append id row rows, unmarshal-marshal src.config text r good)
      ]
