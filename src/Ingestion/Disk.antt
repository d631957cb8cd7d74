-- ===== src/Ingestion/Disk.antt =====
-- data-plane/ingestion/file/connector.go: the sources of the file connector, and the files that a run
-- reads.
use Prim.Native.String.{◌++◌ as joined, len, slice}
use fox_fleet.Prelude.{
  ℕ, String, Option, none, some, List, [], ◌∷◌, Bool, true, false, not, ◌&&◌, ◌||◌, ite, ltb,
  string_discrete, if◌then◌else◌, Result, ok, err, Error, wrap, message,
}
use fox_fleet.Prelude.Maps.{set_value}
use fox_fleet.Config.{is_empty}
use fox_fleet.Chunker.{}
use fox_fleet.Sources.Tracking.{Document}
use fox_fleet.Ingestion.{SourceConfig, Point, value_of, find_source, without_source}

-- 50 MB
abbrev pub max_file_size : ℕ
max_file_size = 52_428_800

pub record FileInfo : Type 0 where
  pub is_dir : Bool
  pub size : ℕ

-- What is outside: the file system, SHA-256 of a file's bytes, how Go reads the runes of bytes, the
-- embedder, the vector store with the ids of its points, the SQL engine and the clock. A path is
-- taken apart and put together by `base`, `ext` and `join`.
pub record Outside (W V : Type 0) : Type 0 where
  pub absolute : String → W → Result String × W
  pub eval_symlinks : String → W → Result String × W
  pub stat : String → W → Result FileInfo × W
  pub read_dir : String → W → Result (List (String × Bool)) × W
  pub read_file : String → W → Result (List ℕ) × W
  pub base : String → String
  pub ext : String → String
  pub join : String → String → String
  pub content_hash : List ℕ → String
  pub runes : List ℕ → List ℕ
  pub embed : List (List ℕ) → W → Result (List V) × W
  pub upsert : String → List (Point V) → W → Option Error × W
  pub delete_by_filter : String → String → String → W → Option Error × W
  pub point_id : String → String → ℕ → String
  pub sql_error : W → Option Error × W
  pub now : W → ℕ × W

pub record State (W : Type 0) : Type 0 where
  pub world : W
  pub docs : List Document

abbrev pub same_text : String → String → Bool
same_text a b = ite (string_discrete a b) true false

-- `strings.HasPrefix`
abbrev has_prefix : String → String → Bool
has_prefix s p = same_text (slice s 0 (len p)) p

module _ {W V : Type 0} (o : Outside W V) where
  abbrev pub is_allowed : String → String → Bool
  is_allowed allowed path =
      is_empty allowed || same_text path allowed || has_prefix path (joined allowed "/")

  abbrev pub after_stat :
      SourceConfig
      → String
      → Result FileInfo
      → List SourceConfig
      → Result (Unit {0}) × List SourceConfig
  after_stat cfg path (err e) sources = (err (wrap ("file connector: stat" ∷ path ∷ []) e), sources)
  after_stat cfg path (ok info) sources =
      if not info.is_dir && ltb max_file_size info.size
      then (err (message ("file connector" ∷ path ∷ "exceeds the byte limit" ∷ [])), sources)
      else (
        ok tt,
        record cfg { config = set_value "path" path cfg.config }
            ∷ without_source cfg.source_id sources,
      )

  abbrev pub after_resolve :
      String
      → SourceConfig
      → Result String × W
      → List SourceConfig
      → Result (Unit {0}) × List SourceConfig × W
  after_resolve allowed cfg (err e, w) sources =
      (err (wrap ("file connector: eval symlinks" ∷ []) e), sources, w)
  after_resolve allowed cfg (ok path, w) sources =
      let (info, w') = o.stat path w in
      let (answer, sources') = after_stat cfg path info sources in
      if is_allowed allowed path then (answer, sources', w') else (
        err (message ("file connector: path is outside allowed directory" ∷ path ∷ [])),
        sources,
        w,
      )

  -- `allowed` is the directory that paths must lie in, or empty.
  unfoldable pub connect :
      String → SourceConfig → List SourceConfig → W → Result (Unit {0}) × List SourceConfig × W
  unfolding value_of set_value without_source
  connect allowed cfg sources w =
      let path = value_of "path" cfg.config in
      let (resolved, w') = o.absolute path w in
      if is_empty path
      then (err (message ("file connector: config.path is required" ∷ [])), sources, w)
      else (elim resolved [
        | err e ↦ (err (wrap ("file connector: resolve path" ∷ path ∷ []) e), sources, w')
        | ok p ↦ after_resolve allowed cfg (o.eval_symlinks p w') sources
      ])

  abbrev is_document : String → Bool
  is_document name =
      let ext = o.ext name in same_text ext ".txt" || same_text ext ".csv" || same_text ext ".md"

  unfoldable pub documents_in : String → List (String × Bool) → List String
  documents_in path [] = []
  documents_in path ((name, is_dir) ∷ es) =
      let rest = documents_in path es in
      if is_dir then rest else if is_document name then o.join path name ∷ rest else rest

  abbrev pub after_read_dir : String → Result (List (String × Bool)) → Result (List String)
  after_read_dir path (err e) = err (wrap ("file connector: read dir" ∷ path ∷ []) e)
  after_read_dir path (ok entries) = ok (documents_in path entries)

  abbrev pub after_info : String → Result FileInfo × W → Result (List String) × W
  after_info path (err e, w) = (err (wrap ("file connector: stat" ∷ path ∷ []) e), w)
  after_info path (ok info, w) =
      let (entries, w') = o.read_dir path w in
      elim info.is_dir [ true ↦ (after_read_dir path entries, w') | false ↦ (ok (path ∷ []), w) ]

  abbrev pub list_files : String → W → Result (List String) × W
  list_files path w = after_info path (o.stat path w)

abbrev pub disconnect : String → List SourceConfig → List SourceConfig
disconnect id sources = without_source id sources

unfoldable pub is_connected : String → List SourceConfig → Bool
unfolding find_source
is_connected id sources = elim (find_source id sources) [ none ↦ false | some _ ↦ true ]
