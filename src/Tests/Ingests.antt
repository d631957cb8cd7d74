-- ===== src/Tests/Ingests.antt =====
-- Runs of the embedding client and of the connectors.
use fox_fleet.Prelude.Int.{pos}
use fox_fleet.Prelude.{
  some, ℕ, zero, suc, ◌+◌, ◌≤◌, ◌≡◌, refl, none, [], ◌∷◌, true, false, length, All, arith, ok, err,
  foreign, string_discrete,
}
use fox_fleet.Chunker.{split}
use fox_fleet.Embedding
use fox_fleet.Embedding.{vectors, Reply, Datum, data_of, failure, status, max_retries, embed}
use fox_fleet.Embedding.Vectors.{Answered, embed-Answered}
use fox_fleet.Ingestion.{SourceConfig, value_of, find_source}
use fox_fleet.Ingestion.Rest.{Url, ingest}
use fox_fleet.Ingestion.Rest
use fox_fleet.Ingestion.Origin.{Sent, ingest-Sent}
use fox_fleet.Ingestion.Disk
use fox_fleet.Ingestion.File
use fox_fleet.Ingestion.Skipped.{Steady, ingest_skipped}

-- The service is overloaded once, and then gives vectors for two texts, in no order and one twice.
abbrev service : Embedding.Outside ℕ ℕ
service = record {
  post = λ texts n. elim n [
    | zero ↦ (failure (status 503), 1)
    | suc k ↦ (
      data_of (
          record { embedding = 7; index = pos 1 }
          ∷ record { embedding = 8; index = pos 0 }
          ∷ record { embedding = 9; index = pos 1 }
          ∷ []),
      suc (suc k),
    )
  ];
  wait = λ attempt n. (false, n);
}

abbrev no_requests : Embedding.State ℕ
no_requests = record { world = 0; posts = 0 }

run_embed :
    embed service (pos 0) ("a" ∷ "b" ∷ []) no_requests
    ≡ (vectors (some 8 ∷ some 9 ∷ []), record { world = 2; posts = 2 })
unfolding embed
run_embed = refl

embed-Answered_example :
    Answered service ("a" ∷ "b" ∷ []) (vectors (some 8 ∷ some 9 ∷ [])) 2 × (2 ≤ 3)
unfolding embed
embed-Answered_example = embed-Answered service (pos 0) "a" ("b" ∷ []) no_requests

abbrev source : SourceConfig
source = record {
  source_id = "src-1";
  type = "rest";
  credentials = ("bearer_token", "t") ∷ [];
  schedule = "";
  collection = "docs";
  metadata = [];
  config = ("url", "https://a.io/1") ∷ ("path", "/docs/a.txt") ∷ [];
}

abbrev origin : Url
origin = record { scheme = "https"; host = "a.io" }

-- Each page gives one document and the same page as the next one.
abbrev web : Rest.Outside ℕ ℕ
web = record {
  parse_url = λ url. ok origin;
  unmarshal = λ body. ok (record {
    documents = record { id = "d"; text = 65 ∷ [] } ∷ [];
    next_url = "https://a.io/1";
  });
  get = λ url token n. (ok (record { status_code = 200; body = "" }), n + 1);
  embed = λ texts n. (ok (7 ∷ []), n);
  upsert = λ collection ps n. (none, n);
  point_id = λ source doc idx. "p";
}

ingest-Sent_example :
    All
      (Sent web origin "t")
      ((ingest web "src-1" (source ∷ []) (record { world = 0; calls = [] })).1.calls)
    × (length ((ingest web "src-1" (source ∷ []) (record { world = 0; calls = [] })).1.calls)
        ≤ 1000)
unfolding value_of find_source string_discrete
ingest-Sent_example = ingest-Sent web "src-1" (source ∷ []) source origin 0 refl refl

-- One file with a letter in it, and an embedder that always fails.
abbrev disk : Disk.Outside ℕ ℕ
disk = record {
  absolute = λ path n. (ok path, n);
  eval_symlinks = λ path n. (ok path, n);
  stat = λ path n. (ok (record { is_dir = false; size = 1 }), n);
  read_dir = λ path n. (ok [], n);
  read_file = λ path n. (ok (65 ∷ []), n);
  base = λ path. "a.txt";
  ext = λ path. ".txt";
  join = λ dir name. name;
  content_hash = λ bytes. "h1";
  runes = λ bytes. bytes;
  embed = λ texts n. (err (foreign "unavailable"), n);
  upsert = λ collection ps n. (none, n);
  delete_by_filter = λ collection source doc n. (none, n);
  point_id = λ source path idx. "p";
  sql_error = λ n. (none, n);
  now = λ n. (5, n);
}

disk-Steady : Steady disk "/docs/a.txt" (65 ∷ [])
disk-Steady = record {
  is_file = λ w. (record { is_dir = false; size = 1 }, (refl, refl));
  reads = λ w. refl;
  no_error = λ w. refl;
  fits = omega arith;
}

abbrev start : Disk.State ℕ
start = record { world = 0; docs = [] }

ingest_skipped_example :
    (File.ingest disk true "src-1"
      (source ∷ [])
      ((File.ingest disk true "src-1" (source ∷ []) start).1)).0
    ≡ ok (record { documents_processed = 1; chunks_stored = 0; errors = [] })
unfolding value_of find_source string_discrete split
ingest_skipped_example =
    ingest_skipped disk source (source ∷ []) (65 ∷ []) (record { text = 65 ∷ []; index = 0 }) []
      start refl disk-Steady refl
