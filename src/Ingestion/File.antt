-- ===== src/Ingestion/File.antt =====
-- data-plane/ingestion/file/connector.go: documents from a file or a directory. The hashes of the
-- documents that are seen are kept in the table `document_tracking`, where the connector has a
-- tracker; Go's iteration over the map of new hashes has no order, here it is that of the list.
use Prim.Native.String.{}
use fox_fleet.Prelude.{
  ℕ, zero, suc, ◌+◌, String, Option, none, some, List, [], ◌∷◌, ◌++◌, Bool, true, false, ite, ltb,
  length, map, take, drop, string_discrete, if◌then◌else◌, Result, ok, err, Error, wrap, message,
}
use fox_fleet.Config.{}
use fox_fleet.Chunker.{Chunk}
use fox_fleet.Sources.Tracking.{
  Document, get_doc_hash, set_doc_hash, list_doc_ids, delete_doc_tracking,
}
use fox_fleet.Ingestion.{
  SourceConfig, IngestResult, Point, nothing_yet, add_error, value_of, default_chunks, find_source,
}
use fox_fleet.Prelude.Maps.{set_value}
use fox_fleet.Ingestion.Disk.{Outside, State, max_file_size, same_text, list_files, documents_in}

abbrev pub max_embed_batch : ℕ
max_embed_batch = 256

unfoldable pub contains : String → List String → Bool
contains s [] = false
contains s (t ∷ ts) = let rest = contains s ts in ite (string_discrete t s) true rest

-- A chunk that is to be stored.
pub record PendingChunk : Type 0 where
  pub path : String
  pub doc_id : String
  pub chunk : Chunk

-- What the loop over the files has found.
pub record Scan : Type 0 where
  pub seen : List String
  pub pending : List PendingChunk
  pub doc_hashes : List (String × String)
  pub result : IngestResult

abbrev pub no_files_yet : Scan
no_files_yet = record { seen = []; pending = []; doc_hashes = []; result = nothing_yet }

abbrev pub see : String → Scan → Scan
see doc_id x = record x { seen = doc_id ∷ x.seen }

abbrev pub scan_error : Error → Scan → Scan
scan_error e x = record x { result = add_error e x.result }

abbrev pub processed : Scan → Scan
processed x = record x {
  result = record (x.result) { documents_processed = x.result.documents_processed + 1 };
}

-- pending[i:i+256], for every i that begins one.
unfoldable pub batches : {A : Type 0} → ℕ → List A → List (List A)
batches zero xs = []
batches (suc fuel) [] = []
batches (suc fuel) (x ∷ xs) =
    take max_embed_batch (x ∷ xs) ∷ batches fuel (drop max_embed_batch (x ∷ xs))

module _ {W V : Type 0} (o : Outside W V) where
  unfoldable pub pending_of : String → String → List Chunk → List PendingChunk
  pending_of path doc_id [] = []
  pending_of path doc_id (c ∷ cs) =
      record { path = path; doc_id = doc_id; chunk = c } ∷ pending_of path doc_id cs

  -- A document that has changed, or is new.
  abbrev pub add_document : String → String → String → List Chunk → Scan → Scan
  add_document path doc_id hash [] x = processed x
  add_document path doc_id hash (c ∷ cs) x = processed (record x {
    pending = x.pending ++ pending_of path doc_id (c ∷ cs);
    doc_hashes = set_value doc_id hash x.doc_hashes;
  })

  -- Whether the tracker has the hash.
  abbrev pub is_unchanged : String → Result String → Bool
  is_unchanged hash (err e) = false
  is_unchanged hash (ok prev) = same_text prev hash

  unfoldable pub scan_data :
      Bool → String → String → String → List ℕ → Scan → State W → Scan × State W
  unfolding pending_of
  scan_data tracks source_id path doc_id bytes x s =
      let hash = o.content_hash bytes in
      let added = add_document path doc_id hash (default_chunks (o.runes bytes)) x in
      let (fault, w) = o.sql_error s.world in
      if ltb max_file_size (length bytes)
      then (scan_error (message (doc_id ∷ "exceeds the byte limit" ∷ [])) x, s)
      else (elim tracks [
        | false ↦ (added, s)
        | true ↦ (
          if is_unchanged hash (get_doc_hash fault source_id doc_id s.docs)
              then processed x
              else added,
          record s { world = w },
        )
      ])

  abbrev pub after_read :
      Bool → String → String → String → Result (List ℕ) → Scan → State W → Scan × State W
  after_read tracks source_id path doc_id (err e) x s =
      (scan_error (wrap (doc_id ∷ "read" ∷ []) e) x, s)
  after_read tracks source_id path doc_id (ok bytes) x s =
      scan_data tracks source_id path doc_id bytes x s

  unfoldable pub scan_files : Bool → String → List String → Scan → State W → Scan × State W
  unfolding scan_data
  scan_files tracks source_id [] x s = (x, s)
  scan_files tracks source_id (f ∷ fs) x s =
      let doc_id = o.base f in
      let (bytes, w) = o.read_file f s.world in
      let (x', s') =
        after_read tracks source_id f doc_id bytes (see doc_id x) (record s { world = w }) in
      scan_files tracks source_id fs x' s'

  unfoldable pub points : String → List PendingChunk → List V → List (Point V)
  points source_id (p ∷ ps) (v ∷ vs) =
      record {
        id = o.point_id source_id p.path p.chunk.index;
        vector = v;
        text = p.chunk.text;
        source_id = source_id;
        doc_id = p.doc_id;
        chunk_idx = p.chunk.index;
      }
      ∷ points source_id ps vs
  points source_id _ _ = []

  abbrev after_upsert : ℕ → Option Error → IngestResult → IngestResult
  after_upsert n none r = record r { chunks_stored = r.chunks_stored + n }
  after_upsert n (some e) r = add_error (wrap ("upsert batch" ∷ []) e) r

  abbrev after_embed :
      String → String → List PendingChunk → IngestResult → Result (List V) × W → IngestResult × W
  after_embed collection source_id batch r (err e, w) =
      (add_error (wrap ("embed batch" ∷ []) e) r, w)
  after_embed collection source_id batch r (ok vs, w) =
      let ps = points source_id batch vs in
      let (fault, w') = o.upsert collection ps w in (after_upsert (length ps) fault r, w')

  unfoldable pub store_batches :
      String → String → List (List PendingChunk) → IngestResult → W → IngestResult × W
  unfolding points
  store_batches collection source_id [] r w = (r, w)
  store_batches collection source_id (b ∷ bs) r w =
      let (r', w') = after_embed collection source_id b r (o.embed (map (λ p. p.chunk.text) b) w) in
      store_batches collection source_id bs r' w'

  -- Errors are dropped.
  unfoldable pub set_hashes : String → List (String × String) → State W → State W
  set_hashes source_id [] s = s
  set_hashes source_id ((doc_id, hash) ∷ hs) s =
      let (fault, w) = o.sql_error s.world in
      let (now, w') = o.now w in
      let docs = (set_doc_hash fault source_id doc_id hash now s.docs).1 in
      set_hashes source_id hs (record { world = w'; docs = docs })

  -- The documents of earlier runs that are gone; errors are dropped.
  unfoldable pub sweep : String → String → List String → List String → State W → State W
  unfolding contains
  sweep collection source_id seen [] s = s
  sweep collection source_id seen (doc_id ∷ ids) s =
      let (_, w) = o.delete_by_filter collection source_id doc_id s.world in
      let (fault, w') = o.sql_error w in
      let docs = (delete_doc_tracking fault source_id doc_id s.docs).1 in
      sweep collection source_id seen ids
        (if contains doc_id seen then s else record { world = w'; docs = docs })

  abbrev pub sweep_listed : String → String → List String → Result (List String) → State W → State W
  sweep_listed collection source_id seen (err e) s = s
  sweep_listed collection source_id seen (ok ids) s = sweep collection source_id seen ids s

  -- What the tracker gets, where there is one.
  abbrev pub track : Bool → String → String → Scan → State W → State W
  track false collection source_id x s = s
  track true collection source_id x s =
      let t = set_hashes source_id x.doc_hashes s in
      let (fault, w) = o.sql_error t.world in
      sweep_listed collection source_id x.seen (list_doc_ids fault source_id t.docs)
        (record t { world = w })

  abbrev pub ingest_files :
      Bool → SourceConfig → Result (List String) × W → List Document → Result IngestResult × State W
  ingest_files tracks cfg (err e, w) docs = (err e, record { world = w; docs = docs })
  ingest_files tracks cfg (ok files, w) docs =
      let (x, s) =
        scan_files tracks cfg.source_id files no_files_yet (record { world = w; docs = docs }) in
      let (r, w') =
        store_batches cfg.collection cfg.source_id (batches (length x.pending) x.pending) x.result
          s.world in
      (ok r, track tracks cfg.collection cfg.source_id x (record s { world = w' }))

  unfoldable pub ingest :
      Bool → String → List SourceConfig → State W → Result IngestResult × State W
  unfolding find_source value_of scan_files store_batches batches set_hashes sweep documents_in
  ingest tracks id sources s = elim (find_source id sources) [
    | none ↦ (err (message ("file connector: source" ∷ id ∷ "not connected" ∷ [])), s)
    | some cfg ↦ ingest_files tracks cfg (list_files o (value_of "path" cfg.config) s.world) s.docs
  ]
