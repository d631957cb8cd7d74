-- ===== src/Tests/SourceRuns.antt =====
-- Runs of the source registry.
use fox_fleet.Prelude.{◌≡◌, refl, none, some, List, [], ◌∷◌, string_discrete, ok}
use text.Mathlib.TextEquality.{}
use fox_fleet.Sources.{
  Json, Config, Details, Source, SourceRow, create, insert, find, marshal_config, with_defaults,
}
use fox_fleet.Sources.Tracking.{Document, get_doc_hash, find_document}
use fox_fleet.Sources.Documents.{sets, run, get_doc_hash-run}

abbrev config : Config
config = ("path", "/docs") ∷ []

-- One configuration is all that is ever written.
abbrev json : Json
json = record { marshal = λ _. ok "text"; unmarshal = λ _. some config }

abbrev details : Details
details = record {
  id = "src-1";
  type = "file";
  name = "docs";
  collection = "docs";
  status = "";
  doc_count = 0;
  chunk_count = 0;
  error_detail = "";
  created_at = 0;
  updated_at = 0;
}

abbrev source : Source
source = record { details = details; config = config }

abbrev created : List SourceRow
created = record { details = with_defaults 5 details; config_json = "text" } ∷ []

run_create : create json none 5 source [] ≡ (ok tt, created)
unfolding create insert find marshal_config string_discrete
run_create = refl

abbrev tracked : List Document
tracked = record { source_id = "src-1"; doc_id = "a"; content_hash = "h1"; updated_at = 3 } ∷ []

get_doc_hash-run_example :
    get_doc_hash none "src-1" "a" (run (sets "src-1" "a" "h2" 9) tracked) ≡ ok "h2"
unfolding get_doc_hash find_document string_discrete
get_doc_hash-run_example = get_doc_hash-run (sets "src-1" "a" "h2" 9) "src-1" "a" "h1" tracked refl
