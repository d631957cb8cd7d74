-- ===== src/Sources.antt =====
-- data-plane/source/registry.go: the data sources, and the hashes of the documents that a sync has
-- seen. A table is the list of its rows in the order of their insertion; the error of the SQL engine
-- and the time of a call, a Unix second with 0 for the empty text, are arguments, as is the JSON of
-- the configuration.
pub mod Tracking
pub mod Documents
pub mod Rows
use fox_fleet.Prelude.{
  ℕ, String, Option, none, some, List, [], ◌∷◌, ◌++◌, Bool, true, false, ite, string_discrete,
  dec_le, ◌==◌, if◌then◌else◌, map, Result, ok, err, Error, wrap, foreign, not_found,
}

pub record Details : Type 0 where
  pub id : String
  pub type : String
  pub name : String
  pub collection : String
  pub status : String
  pub doc_count : ℕ
  pub chunk_count : ℕ
  pub error_detail : String
  pub created_at : ℕ
  pub updated_at : ℕ

abbrev pub Config : Type 0
Config = List (String × String)

pub record Source : Type 0 where
  pub details : Details
  pub config : Config

-- A row keeps the configuration as a text.
pub record SourceRow : Type 0 where
  pub details : Details
  pub config_json : String

-- encoding/json on a map of strings.
pub record Json : Type 0 where
  pub marshal : Config → Result String
  pub unmarshal : String → Option Config

abbrev pub empty_to : String → String → String
empty_to s default = ite (string_discrete s "") default s

abbrev pub zero_to : ℕ → ℕ → ℕ
zero_to t now = if t == 0 then now else t

-- What `Create` makes of a new source.
abbrev pub with_defaults : ℕ → Details → Details
with_defaults now d = record d {
  created_at = zero_to d.created_at now;
  updated_at = zero_to d.updated_at now;
  status = empty_to d.status "pending";
}

unfoldable pub find : String → List SourceRow → Option SourceRow
find id [] = none
find id (r ∷ rs) = ite (string_discrete r.details.id id) (some r) (find id rs)

unfoldable pub update_where : String → (Details → Details) → List SourceRow → List SourceRow
update_where id f [] = []
update_where id f (r ∷ rs) =
    let rest = update_where id f rs in
    ite (string_discrete r.details.id id) (record r { details = f r.details } ∷ rest) (r ∷ rest)

unfoldable pub delete_where : String → List SourceRow → List SourceRow
delete_where id [] = []
delete_where id (r ∷ rs) =
    let rest = delete_where id rs in ite (string_discrete r.details.id id) rest (r ∷ rest)

-- ORDER BY created_at; rows of one second stay in the order of their insertion.
unfoldable pub insert_by_time : SourceRow → List SourceRow → List SourceRow
insert_by_time r [] = r ∷ []
insert_by_time r (q ∷ qs) =
    let rest = insert_by_time r qs in
    ite (dec_le r.details.created_at q.details.created_at) (r ∷ q ∷ qs) (q ∷ rest)

unfoldable pub order_by_time : List SourceRow → List SourceRow
unfolding insert_by_time
order_by_time [] = []
order_by_time (r ∷ rs) = insert_by_time r (order_by_time rs)

-- One UPDATE … WHERE id = ?, with the words of its error.
unfoldable pub update_one :
    List String
    → Option Error
    → String
    → (Details → Details)
    → List SourceRow
    → Result (Unit {0}) × List SourceRow
update_one words (some e) id f rows = (err (wrap words e), rows)
update_one words none id f rows = elim (find id rows) [
  | none ↦ (err not_found, rows)
  | some _ ↦ (ok tt, update_where id f rows)
]

unfoldable pub update_status :
    Option Error → ℕ → String → String → List SourceRow → Result (Unit {0}) × List SourceRow
unfolding update_one
update_status fault now id status rows =
    update_one ("source: update status" ∷ id ∷ []) fault id
      (λ d. record d { status = status; updated_at = now }) rows

unfoldable pub update_counts :
    Option Error → ℕ → String → ℕ → ℕ → List SourceRow → Result (Unit {0}) × List SourceRow
unfolding update_one
update_counts fault now id doc_count chunk_count rows =
    update_one ("source: update counts" ∷ id ∷ []) fault id
      (λ d. record d { doc_count = doc_count; chunk_count = chunk_count; updated_at = now }) rows

unfoldable pub set_error :
    Option Error → ℕ → String → String → List SourceRow → Result (Unit {0}) × List SourceRow
unfolding update_one
set_error fault now id detail rows =
    update_one ("source: set error" ∷ id ∷ []) fault id
      (λ d. record d { status = "error"; error_detail = detail; updated_at = now }) rows

unfoldable pub delete : Option Error → String → List SourceRow → Result (Unit {0}) × List SourceRow
delete (some e) id rows = (err (wrap ("source: delete" ∷ id ∷ []) e), rows)
delete none id rows = elim (find id rows) [
  | none ↦ (err not_found, rows)
  | some _ ↦ (ok tt, delete_where id rows)
]

-- INSERT, where `id` is the primary key.
unfoldable pub insert :
    Option Error → SourceRow → List SourceRow → Result (Unit {0}) × List SourceRow
insert (some e) row rows = (err e, rows)
insert none row rows = elim (find row.details.id rows) [
  | some _ ↦ (err (foreign "UNIQUE constraint failed: sources.id"), rows)
  | none ↦ (ok tt, rows ++ row ∷ [])
]

module _ (json : Json) where
  unfoldable pub marshal_config : Config → Result String
  marshal_config [] = ok "{}"
  marshal_config (e ∷ es) = elim (json.marshal (e ∷ es)) [
    | ok text ↦ ok text
    | err x ↦ err (wrap ("marshal config" ∷ []) x)
  ]

  -- A text that does not parse is no configuration.
  unfoldable pub unmarshal_config : String → Config
  unmarshal_config s =
      ite (string_discrete s "") []
        (ite (string_discrete s "{}") [] (elim (json.unmarshal s) [ none ↦ [] | some c ↦ c ]))

  unfoldable pub create :
      Option Error → ℕ → Source → List SourceRow → Result (Unit {0}) × List SourceRow
  create fault now src rows =
      let d = with_defaults now src.details in
      let words = "source: create" ∷ d.id ∷ [] in
      elim (marshal_config src.config) [
        | err e ↦ (err (wrap words e), rows)
        | ok text ↦
            let (answer, rows') = insert fault (record { details = d; config_json = text }) rows in
            elim answer [ ok _ ↦ (ok tt, rows') | err e ↦ (err (wrap words e), rows') ]
      ]

  abbrev pub source_of : SourceRow → Source
  source_of r = record { details = r.details; config = unmarshal_config r.config_json }

  unfoldable pub get : Option Error → String → List SourceRow → Result Source
  get (some e) id rows = err (wrap ("source: get" ∷ id ∷ []) e)
  get none id rows = elim (find id rows) [ none ↦ err not_found | some r ↦ ok (source_of r) ]

  unfoldable pub list : Option Error → List SourceRow → Result (List Source)
  unfolding order_by_time
  list (some e) rows = err (wrap ("source: list" ∷ []) e)
  list none rows = ok (map source_of (order_by_time rows))
