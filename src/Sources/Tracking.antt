-- ===== src/Sources/Tracking.antt =====
-- data-plane/source/registry.go: the table `document_tracking`, with the hash of each document that a
-- sync has seen.
use fox_fleet.Prelude.{
  ℕ, String, Option, none, some, List, [], ◌∷◌, ite, string_discrete, Result, ok, err, Error,
}

pub record Document : Type 0 where
  pub source_id : String
  pub doc_id : String
  pub content_hash : String
  pub updated_at : ℕ

-- The row of a source's document.
unfoldable pub find_document : String → String → List Document → Option Document
find_document source_id doc_id [] = none
find_document source_id doc_id (d ∷ ds) =
    let rest = find_document source_id doc_id ds in
    ite (string_discrete d.source_id source_id)
      (ite (string_discrete d.doc_id doc_id) (some d) rest) rest

-- A document that is not tracked has the empty hash.
unfoldable pub get_doc_hash : Option Error → String → String → List Document → Result String
get_doc_hash (some e) source_id doc_id docs = err e
get_doc_hash none source_id doc_id docs = elim (find_document source_id doc_id docs) [
  | none ↦ ok ""
  | some d ↦ ok (d.content_hash)
]

-- INSERT … ON CONFLICT (source_id, doc_id) DO UPDATE
unfoldable pub upsert_document : String → String → String → ℕ → List Document → List Document
upsert_document source_id doc_id hash now [] =
    record { source_id = source_id; doc_id = doc_id; content_hash = hash; updated_at = now } ∷ []
upsert_document source_id doc_id hash now (d ∷ ds) =
    let rest = d ∷ upsert_document source_id doc_id hash now ds in
    ite (string_discrete d.source_id source_id)
      (ite (string_discrete d.doc_id doc_id)
        (record d { content_hash = hash; updated_at = now } ∷ ds) rest)
      rest

unfoldable pub set_doc_hash :
    Option Error → String → String → String → ℕ → List Document → Result (Unit {0}) × List Document
set_doc_hash (some e) source_id doc_id hash now docs = (err e, docs)
set_doc_hash none source_id doc_id hash now docs =
    (ok tt, upsert_document source_id doc_id hash now docs)

-- WHERE source_id = ?
unfoldable pub ids_of : String → List Document → List String
ids_of source_id [] = []
ids_of source_id (d ∷ ds) =
    let rest = ids_of source_id ds in
    ite (string_discrete d.source_id source_id) (d.doc_id ∷ rest) rest

unfoldable pub list_doc_ids : Option Error → String → List Document → Result (List String)
list_doc_ids (some e) source_id docs = err e
list_doc_ids none source_id docs = ok (ids_of source_id docs)

unfoldable pub without_document : String → String → List Document → List Document
without_document source_id doc_id [] = []
without_document source_id doc_id (d ∷ ds) =
    let rest = without_document source_id doc_id ds in
    ite (string_discrete d.source_id source_id)
      (ite (string_discrete d.doc_id doc_id) rest (d ∷ rest)) (d ∷ rest)

unfoldable pub delete_doc_tracking :
    Option Error → String → String → List Document → Result (Unit {0}) × List Document
delete_doc_tracking (some e) source_id doc_id docs = (err e, docs)
delete_doc_tracking none source_id doc_id docs = (ok tt, without_document source_id doc_id docs)

unfoldable pub without_source : String → List Document → List Document
without_source source_id [] = []
without_source source_id (d ∷ ds) =
    let rest = without_source source_id ds in
    ite (string_discrete d.source_id source_id) rest (d ∷ rest)

unfoldable pub delete_all_doc_tracking :
    Option Error → String → List Document → Result (Unit {0}) × List Document
delete_all_doc_tracking (some e) source_id docs = (err e, docs)
delete_all_doc_tracking none source_id docs = (ok tt, without_source source_id docs)
