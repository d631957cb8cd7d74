-- ===== src/Ingestion.antt =====
-- data-plane/ingestion: the connectors that read documents, cut them into chunks, and put the chunks
-- with their vectors into the vector store. The embedder and the store are arguments of a connector;
-- the embedder gives a vector to each text (see Embedding). The duration of a run is not modelled.
pub mod Rest
pub mod Origin
pub mod Disk
pub mod File
pub mod Skipped
use fox_fleet.Prelude.Int.{pos}
use fox_fleet.Prelude.{
  ℕ, ◌+◌, String, Option, none, some, List, [], ◌∷◌, ◌++◌, ite, string_discrete, Result, ok, err,
  Error, message,
}
use fox_fleet.Chunker.{Chunk, Options, Outcome, chunks, slice_panic, out_of_fuel, split}

pub record SourceConfig : Type 0 where
  pub source_id : String
  pub type : String
  pub credentials : List (String × String)
  pub schedule : String
  pub collection : String
  pub metadata : List (String × String)
  pub config : List (String × String)

pub record IngestResult : Type 0 where
  pub documents_processed : ℕ
  pub chunks_stored : ℕ
  pub errors : List Error

abbrev pub nothing_yet : IngestResult
nothing_yet = record { documents_processed = 0; chunks_stored = 0; errors = [] }

abbrev pub add_error : Error → IngestResult → IngestResult
add_error e r = record r { errors = r.errors ++ e ∷ [] }

-- `m[key]`, the empty text where there is no entry.
unfoldable pub value_of : String → List (String × String) → String
value_of key [] = ""
value_of key ((k, v) ∷ m) = ite (string_discrete k key) v (value_of key m)

-- The chunks of a text with the default options, where `Split` does not panic.
abbrev pub chunks_of : Outcome → List Chunk
chunks_of (chunks cs) = cs
chunks_of slice_panic = []
chunks_of out_of_fuel = []

abbrev pub default_chunks : List ℕ → List Chunk
default_chunks text = chunks_of (split text (record { chunk_size = pos 0; overlap = pos 0 }))

pub record Point (V : Type 0) : Type 0 where
  pub id : String
  pub vector : V
  pub text : List ℕ
  pub source_id : String
  pub doc_id : String
  pub chunk_idx : ℕ

abbrev pub text_of : Chunk → List ℕ
text_of c = c.text

-- The map `c.sources`, whose entries are found by their ids.
unfoldable pub find_source : String → List SourceConfig → Option SourceConfig
find_source id [] = none
find_source id (c ∷ cs) = ite (string_discrete c.source_id id) (some c) (find_source id cs)

unfoldable pub without_source : String → List SourceConfig → List SourceConfig
without_source id [] = []
without_source id (c ∷ cs) =
    let rest = without_source id cs in ite (string_discrete c.source_id id) rest (c ∷ rest)
