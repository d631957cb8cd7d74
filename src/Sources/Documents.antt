-- ===== src/Sources/Documents.antt =====
-- The tracking of documents in data-plane/source/registry.go, as a map from a source and a document
-- to a hash.
use fox_fleet.Prelude.{
  ℕ, ◌≡◌, ap, ◌∙◌, String, Option, none, some, List, [], ◌∷◌, ite, string_discrete, arith, ok,
}
use fox_fleet.Sources.Tracking.{
  Document, find_document, get_doc_hash, upsert_document, set_doc_hash, without_document,
  delete_doc_tracking, without_source, delete_all_doc_tracking,
}

-- The methods that write, as one kind of call.
pub data DocumentWrite : Type 0 where
  sets : String → String → String → ℕ → DocumentWrite
  deletes : String → String → DocumentWrite
  deletes_all : String → DocumentWrite

abbrev pub run : DocumentWrite → List Document → List Document
run (sets s d h now) docs = (set_doc_hash none s d h now docs).1
run (deletes s d) docs = (delete_doc_tracking none s d docs).1
run (deletes_all s) docs = (delete_all_doc_tracking none s docs).1

-- The hash of a document after a write, by its hash before.
abbrev pub after : DocumentWrite → String → String → String → String
after (sets s d h now) source_id doc_id old =
    ite (string_discrete s source_id) (ite (string_discrete d doc_id) h old) old
after (deletes s d) source_id doc_id old =
    ite (string_discrete s source_id) (ite (string_discrete d doc_id) "" old) old
after (deletes_all s) source_id doc_id old = ite (string_discrete s source_id) "" old

abbrev hash_or_empty : Option Document → String
hash_or_empty none = ""
hash_or_empty (some d) = d.content_hash

hash-upsert :
    (s d h : String) (now : ℕ) (source_id doc_id : String) (docs : List Document)
    → hash_or_empty (find_document source_id doc_id (upsert_document s d h now docs))
      ≡ after
          (sets s d h now)
          source_id
          doc_id
          (hash_or_empty (find_document source_id doc_id docs))
unfolding find_document upsert_document
hash-upsert s d h now source_id doc_id [] = ground arith
hash-upsert s d h now source_id doc_id (x ∷ docs) =
    ground (arith, hash-upsert s d h now source_id doc_id docs)

hash-without_document :
    (s d source_id doc_id : String) (docs : List Document)
    → hash_or_empty (find_document source_id doc_id (without_document s d docs))
      ≡ after (deletes s d) source_id doc_id (hash_or_empty (find_document source_id doc_id docs))
unfolding find_document without_document
hash-without_document s d source_id doc_id [] = ground arith
hash-without_document s d source_id doc_id (x ∷ docs) =
    ground (arith, hash-without_document s d source_id doc_id docs)

hash-without_source :
    (s source_id doc_id : String) (docs : List Document)
    → hash_or_empty (find_document source_id doc_id (without_source s docs))
      ≡ after (deletes_all s) source_id doc_id (hash_or_empty (find_document source_id doc_id docs))
unfolding find_document without_source
hash-without_source s source_id doc_id [] = ground arith
hash-without_source s source_id doc_id (x ∷ docs) =
    ground (arith, hash-without_source s source_id doc_id docs)

get_doc_hash-find :
    (source_id doc_id : String) (docs : List Document)
    → get_doc_hash none source_id doc_id docs
      ≡ ok (hash_or_empty (find_document source_id doc_id docs))
unfolding get_doc_hash
get_doc_hash-find source_id doc_id docs = ground arith

hash-old :
    (source_id doc_id old : String) (docs : List Document)
    → get_doc_hash none source_id doc_id docs ≡ ok old
    → hash_or_empty (find_document source_id doc_id docs) ≡ old
hash-old source_id doc_id old docs e = ground (arith, get_doc_hash-find source_id doc_id docs)

-- Where no statement fails, the hash of a document after a write is the one that `after` gives for
-- the hash before it.
pub get_doc_hash-run :
    (w : DocumentWrite) (source_id doc_id old : String) (docs : List Document)
    → get_doc_hash none source_id doc_id docs ≡ ok old
    → get_doc_hash none source_id doc_id (run w docs) ≡ ok (after w source_id doc_id old)
unfolding set_doc_hash delete_doc_tracking delete_all_doc_tracking
get_doc_hash-run (sets s d h now) source_id doc_id old docs e =
    let same = hash-old source_id doc_id old docs e in
    get_doc_hash-find source_id doc_id _
    ∙ ap ok (
        hash-upsert s d h now source_id doc_id docs
        ∙ ap (after (sets s d h now) source_id doc_id) same)
get_doc_hash-run (deletes s d) source_id doc_id old docs e =
    let same = hash-old source_id doc_id old docs e in
    get_doc_hash-find source_id doc_id _
    ∙ ap ok (
        hash-without_document s d source_id doc_id docs
        ∙ ap (after (deletes s d) source_id doc_id) same)
get_doc_hash-run (deletes_all s) source_id doc_id old docs e =
    let same = hash-old source_id doc_id old docs e in
    get_doc_hash-find source_id doc_id _
    ∙ ap ok (
        hash-without_source s source_id doc_id docs
        ∙ ap (after (deletes_all s) source_id doc_id) same)
