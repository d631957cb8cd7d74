-- ===== src/Ingestion/Skipped.antt =====
-- What a second run of the file connector makes of a document that the first has seen.
use fox_fleet.Prelude.{
  ℕ, ◌≤◌, ◌≡◌, ◌≢◌, refl, ap, ◌∙◌, String, none, some, List, [], ◌∷◌, Bool, true, false, if_pos,
  if_neg, ltb, length, arith, Bool-cases, Option-cases, Result-cases, inl, inr, string_discrete,
  Result, ok, err,
}
use fox_fleet.Chunker.{Chunk}
use fox_fleet.Sources.Tracking.{
  Document, find_document, get_doc_hash, set_doc_hash, delete_doc_tracking,
}
use fox_fleet.Sources.Documents.{sets, deletes, get_doc_hash-run}
use fox_fleet.Ingestion.{SourceConfig, value_of, default_chunks, find_source}
use fox_fleet.Prelude.Maps.{set_value}
use fox_fleet.Ingestion.Disk.{FileInfo, Outside, State, max_file_size, list_files}
use fox_fleet.Ingestion.File.{
  Scan, no_files_yet, see, processed, add_document, is_unchanged, scan_data, scan_files,
  store_batches, batches, set_hashes, contains, sweep, sweep_listed, track, ingest_files, ingest,
}

module _ {W V : Type 0} (o : Outside W V) where
  -- A file that stays as it is, and a table whose statements do not fail.
  pub record Steady (path : String) (bytes : List ℕ) : Type 0 where
    pub is_file :
        (w : W) → (info : FileInfo) × (((o.stat path w).0 ≡ ok info) × (info.is_dir ≡ false))
    pub reads : (w : W) → (o.read_file path w).0 ≡ ok bytes
    pub no_error : (w : W) → (o.sql_error w).0 ≡ none
    pub fits : length bytes ≤ max_file_size

  abbrev scanned : String → W → W
  scanned path w = (o.sql_error ((o.read_file path w).1)).1

  abbrev scan_of : String → List ℕ → List Chunk → Bool → Scan
  scan_of path bytes cs true = processed (see (o.base path) no_files_yet)
  scan_of path bytes cs false =
      add_document o path (o.base path) (o.content_hash bytes) cs (see (o.base path) no_files_yet)

  scan_one :
      (path id : String) (bytes : List ℕ) (w : W) (docs : List Document)
      → Steady path bytes
      → scan_files o true id (path ∷ []) no_files_yet (record { world = w; docs = docs }) ≡ (
        scan_of path bytes
            (default_chunks (o.runes bytes))
            (is_unchanged o (o.content_hash bytes) (get_doc_hash none id (o.base path) docs)),
        record { world = scanned path w; docs = docs },
      )
  unfolding scan_files scan_data
  scan_one path id bytes w docs st =
      let small : ltb max_file_size (length bytes) ≡ false = ground (arith, st.fits) in
      elim (Bool-cases
        (is_unchanged o (o.content_hash bytes) (get_doc_hash none id (o.base path) docs))) [
          | inl p ↦
              rw (scan_files, st.reads w, scan_data, small, st.no_error ((o.read_file path w).1), p)
                refl
          | inr p ↦
              rw (scan_files, st.reads w, scan_data, small, st.no_error ((o.read_file path w).1), p)
                refl
        ]

  list_one :
      (path : String) (bytes : List ℕ) (w : W)
      → Steady path bytes
      → list_files o path w ≡ (ok (path ∷ []), (o.stat path w).1)
  list_one path bytes w st = let i = st.is_file w in rw (list_files, i.1.0, i.1.1) refl

  old_hash :
      (id doc : String) (docs : List Document)
      → (h : String) × (get_doc_hash none id doc docs ≡ ok h)
  unfolding get_doc_hash
  old_hash id doc docs = elim (Option-cases (find_document id doc docs)) [
    | inl p ↦ ("", rw (p, get_doc_hash) refl)
    | inr (d, p) ↦ (d.content_hash, rw (p, get_doc_hash) refl)
  ]

  hash_set :
      (id doc h : String) (now : ℕ) (docs : List Document)
      → get_doc_hash none id doc ((set_doc_hash none id doc h now docs).1) ≡ ok h
  hash_set id doc h now docs =
      let old = old_hash id doc docs in
      get_doc_hash-run (sets id doc h now) id doc old.0 docs old.1
      ∙ ap ok (if_pos (string_discrete id id) refl _ _ ∙ if_pos (string_discrete doc doc) refl _ _)

  hash_kept :
      (id doc other h : String) (docs : List Document)
      → other ≢ doc
      → get_doc_hash none id doc docs ≡ ok h
      → get_doc_hash none id doc ((delete_doc_tracking none id other docs).1) ≡ ok h
  hash_kept id doc other h docs n e =
      get_doc_hash-run (deletes id other) id doc h docs e
      ∙ ap ok (if_pos (string_discrete id id) refl _ _ ∙ if_neg (string_discrete other doc) n _ _)

  sweep_kept :
      (collection id doc h : String) (seen ids : List String) (s : State W)
      → ((w : W) → (o.sql_error w).0 ≡ none)
      → contains doc seen ≡ true
      → get_doc_hash none id doc s.docs ≡ ok h
      → get_doc_hash none id doc ((sweep o collection id seen ids s).docs) ≡ ok h
  unfolding sweep
  sweep_kept collection id doc h seen [] s n c e = e
  sweep_kept collection id doc h seen (i ∷ is) s n c e =
      let w = (o.delete_by_filter collection id i s.world).1 in
      let gone : State W = record {
        world = (o.sql_error w).1;
        docs = (delete_doc_tracking none id i s.docs).1;
      } in
      elim (Bool-cases (contains i seen)) [
        | inl p ↦ rw (p, sweep) (sweep_kept collection id doc h seen is s n c e)
        | inr p ↦
            let other : i ≢ doc = λ q. ground arith in
            rw (p, n w, sweep)
              (sweep_kept collection id doc h seen is gone n c
                (hash_kept id doc i h s.docs other e))
      ]

  listed_kept :
      (collection id doc h : String) (seen : List String) (ids : Result (List String)) (s : State W)
      → ((w : W) → (o.sql_error w).0 ≡ none)
      → contains doc seen ≡ true
      → get_doc_hash none id doc s.docs ≡ ok h
      → get_doc_hash none id doc ((sweep_listed o collection id seen ids s).docs) ≡ ok h
  listed_kept collection id doc h seen (err e) s n c k = k
  listed_kept collection id doc h seen (ok ids) s n c k =
      sweep_kept collection id doc h seen ids s n c k

  contains_self : (doc : String) → contains doc (doc ∷ []) ≡ true
  unfolding contains
  contains_self doc = ground arith

  unchanged_hash :
      (h id doc : String) (docs : List Document)
      → is_unchanged o h (get_doc_hash none id doc docs) ≡ true
      → get_doc_hash none id doc docs ≡ ok h
  unchanged_hash h id doc docs u = elim (Result-cases (get_doc_hash none id doc docs)) [
    | inl (x, p) ↦ ground arith
    | inr (e, p) ↦ absurd (ground arith)
  ]

  track_hash :
      (path id collection : String) (bytes : List ℕ) (c : Chunk) (cs : List Chunk) (b : Bool)
      (s : State W)
      → ((w : W) → (o.sql_error w).0 ≡ none)
      → is_unchanged o (o.content_hash bytes) (get_doc_hash none id (o.base path) s.docs) ≡ b
      → get_doc_hash none id
          (o.base path)
          ((track o true collection id (scan_of path bytes (c ∷ cs) b) s).docs)
        ≡ ok (o.content_hash bytes)
  unfolding set_hashes set_value
  track_hash path id collection bytes c cs true s n u =
      listed_kept collection id (o.base path) (o.content_hash bytes) (o.base path ∷ []) _ _ n
        (contains_self (o.base path))
        (unchanged_hash (o.content_hash bytes) id (o.base path) s.docs u)
  track_hash path id collection bytes c cs false s n u =
      let h = o.content_hash bytes in
      let doc = o.base path in
      let w = o.sql_error s.world in
      let now = (o.now (w.1)).0 in
      let kept : get_doc_hash none id doc ((set_doc_hash (w.0) id doc h now s.docs).1) ≡ ok h =
        rw (n s.world) (hash_set id doc h now s.docs) in
      listed_kept collection id doc h (doc ∷ []) _ _ n (contains_self doc) kept

  ingest_one :
      (cfg : SourceConfig) (sources : List SourceConfig) (bytes : List ℕ) (s : State W)
      → find_source cfg.source_id sources ≡ some cfg
      → Steady (value_of "path" cfg.config) bytes
      → ingest o true cfg.source_id sources s
        ≡ ingest_files o true cfg
            (ok (value_of "path" cfg.config ∷ []), (o.stat (value_of "path" cfg.config) s.world).1)
            s.docs
  unfolding ingest
  ingest_one cfg sources bytes s f st =
      rw (ingest, f, list_one (value_of "path" cfg.config) bytes s.world st) refl

  ingest_hash :
      (cfg : SourceConfig) (sources : List SourceConfig) (bytes : List ℕ) (c : Chunk)
      (cs : List Chunk) (s : State W)
      → find_source cfg.source_id sources ≡ some cfg
      → Steady (value_of "path" cfg.config) bytes
      → default_chunks (o.runes bytes) ≡ c ∷ cs
      → get_doc_hash none cfg.source_id
          (o.base (value_of "path" cfg.config))
          ((ingest o true cfg.source_id sources s).1.docs)
        ≡ ok (o.content_hash bytes)
  ingest_hash cfg sources bytes c cs s f st d =
      let path = value_of "path" cfg.config in
      let w = (o.stat path s.world).1 in
      rw (ingest_one cfg sources bytes s f st, scan_one path cfg.source_id bytes w s.docs st, d)
        (track_hash path cfg.source_id cfg.collection bytes c cs _ _ st.no_error refl)

  ingest_unchanged :
      (cfg : SourceConfig) (sources : List SourceConfig) (bytes : List ℕ) (s : State W)
      → find_source cfg.source_id sources ≡ some cfg
      → Steady (value_of "path" cfg.config) bytes
      → get_doc_hash none cfg.source_id (o.base (value_of "path" cfg.config)) s.docs
        ≡ ok (o.content_hash bytes)
      → (ingest o true cfg.source_id sources s).0
        ≡ ok (record { documents_processed = 1; chunks_stored = 0; errors = [] })
  unfolding batches store_batches
  ingest_unchanged cfg sources bytes s f st h =
      let path = value_of "path" cfg.config in
      let w = (o.stat path s.world).1 in
      let same : is_unchanged o (o.content_hash bytes) (ok (o.content_hash bytes)) ≡ true =
        ground arith in
      rw
        (
          ingest_one cfg sources bytes s f st,
          scan_one path cfg.source_id bytes w s.docs st,
          h,
          same,
        )
        refl

  -- A source that is one file, which does not change: once a run has seen it, the next one stores
  -- nothing and reports no error, whatever became of its chunks in the first run, whose embedder or
  -- vector store may have failed. The connector has a tracker, whose statements do not fail; the
  -- file is not too large and has text in it.
  pub ingest_skipped :
      (cfg : SourceConfig) (sources : List SourceConfig) (bytes : List ℕ) (c : Chunk)
      (cs : List Chunk) (s : State W)
      → find_source cfg.source_id sources ≡ some cfg
      → Steady (value_of "path" cfg.config) bytes
      → default_chunks (o.runes bytes) ≡ c ∷ cs
      → (ingest o true cfg.source_id sources ((ingest o true cfg.source_id sources s).1)).0
        ≡ ok (record { documents_processed = 1; chunks_stored = 0; errors = [] })
  ingest_skipped cfg sources bytes c cs s f st d =
      ingest_unchanged cfg sources bytes _ f st (ingest_hash cfg sources bytes c cs s f st d)
