-- ===== src/Ingestion/Rest.antt =====
-- data-plane/ingestion/rest/connector.go: documents from the pages of a web service.
use fox_fleet.Prelude.{
  ℕ, zero, suc, ◌+◌, String, Option, none, some, List, [], ◌∷◌, Bool, true, false, not, ◌==◌, ◌&&◌,
  ite, length, map, string_discrete, if◌then◌else◌, Result, ok, err, Error, wrap, message,
}
use fox_fleet.Config.{is_empty}
use fox_fleet.Chunker.{Chunk}
use fox_fleet.Ingestion.{
  SourceConfig, IngestResult, Point, nothing_yet, add_error, value_of, default_chunks, text_of,
  find_source, without_source,
}

abbrev pub max_pages : ℕ
max_pages = 1000

pub record Document : Type 0 where
  pub id : String
  pub text : List ℕ

pub record PageResponse : Type 0 where
  pub documents : List Document
  pub next_url : String

-- What `url.Parse` gives that the connector looks at.
pub record Url : Type 0 where
  pub scheme : String
  pub host : String

pub record HttpResponse : Type 0 where
  pub status_code : ℕ
  pub body : String

-- What is outside: the parsers, `http.Client.Do` for a request with its bearer token, which is empty
-- where there is none, the embedder, the vector store, and the hash that makes a point's id.
pub record Outside (W V : Type 0) : Type 0 where
  pub parse_url : String → Result Url
  pub unmarshal : String → Result PageResponse
  pub get : String → String → W → Result HttpResponse × W
  pub embed : List (List ℕ) → W → Result (List V) × W
  pub upsert : String → List (Point V) → W → Option Error × W
  pub point_id : String → String → ℕ → String

unfoldable pub connect : SourceConfig → List SourceConfig → Result (Unit {0}) × List SourceConfig
unfolding value_of without_source
connect cfg sources =
    if is_empty (value_of "url" cfg.config)
    then (err (message ("rest connector: config.url is required" ∷ [])), sources)
    else (ok tt, cfg ∷ without_source cfg.source_id sources)

abbrev pub disconnect : String → List SourceConfig → List SourceConfig
disconnect id sources = without_source id sources

unfoldable pub is_connected : String → List SourceConfig → Bool
unfolding find_source
is_connected id sources = elim (find_source id sources) [ none ↦ false | some _ ↦ true ]

-- The world, and the calls of `http.Client.Do`, newest first: the URL of each and its token. The
-- redirects that the client follows within a call are not among them.
pub record State (W : Type 0) : Type 0 where
  pub world : W
  pub calls : List (String × String)

module _ {W V : Type 0} (o : Outside W V) where
  abbrev pub decode_page : String → Result HttpResponse → Result PageResponse
  decode_page url (err e) = err (wrap ("rest: fetch" ∷ url ∷ []) e)
  decode_page url (ok r) =
      if r.status_code == 200
      then (elim (o.unmarshal r.body) [
        | ok page ↦ ok page
        | err e ↦ err (wrap ("rest: decode page" ∷ []) e)
      ])
      else err (message ("rest" ∷ url ∷ "returned another status" ∷ []))

  unfoldable pub fetch_page : String → SourceConfig → State W → Result PageResponse × State W
  unfolding value_of
  fetch_page url cfg s =
      let token = value_of "bearer_token" cfg.credentials in
      let (r, w) = o.get url token s.world in
      (decode_page url r, record { world = w; calls = (url, token) ∷ s.calls })

  unfoldable pub points : String → String → List Chunk → List V → List (Point V)
  points source_id doc_id (c ∷ cs) (v ∷ vs) =
      record {
        id = o.point_id source_id doc_id c.index;
        vector = v;
        text = c.text;
        source_id = source_id;
        doc_id = doc_id;
        chunk_idx = c.index;
      }
      ∷ points source_id doc_id cs vs
  points source_id doc_id _ _ = []

  abbrev after_embed : Document → String → String → List Chunk → Result (List V) × W → Result ℕ × W
  after_embed doc collection source_id cs (err e, w) = (err (wrap ("embed" ∷ []) e), w)
  after_embed doc collection source_id cs (ok vs, w) =
      let ps = points source_id doc.id cs vs in
      let (fault, w') = o.upsert collection ps w in
      (elim fault [ none ↦ ok (length ps) | some e ↦ err (wrap ("upsert" ∷ []) e) ], w')

  abbrev pub store_chunks : Document → String → String → List Chunk → W → Result ℕ × W
  store_chunks doc collection source_id [] w = (ok 0, w)
  store_chunks doc collection source_id (c ∷ cs) w =
      after_embed doc collection source_id (c ∷ cs) (o.embed (map text_of (c ∷ cs)) w)

  unfoldable pub ingest_document : Document → String → String → W → Result ℕ × W
  unfolding points
  ingest_document doc collection source_id w =
      store_chunks doc collection source_id (default_chunks doc.text) w

  unfoldable pub ingest_documents :
      List Document → String → String → IngestResult → W → IngestResult × W
  unfolding ingest_document
  ingest_documents [] collection source_id result w = (result, w)
  ingest_documents (d ∷ ds) collection source_id result w =
      let (r, w') = ingest_document d collection source_id w in
      let counted : IngestResult = elim r [
        | err e ↦ add_error e result
        | ok n ↦ record result {
          documents_processed = result.documents_processed + 1;
          chunks_stored = result.chunks_stored + n;
        }
      ] in
      ingest_documents ds collection source_id counted w'

  abbrev same_text : String → String → Bool
  same_text a b = ite (string_discrete a b) true false

  unfoldable pub validate_next_url : String → Url → Result (Unit {0})
  validate_next_url next origin = elim (o.parse_url next) [
    | err e ↦ err (wrap ("invalid url" ∷ []) e)
    | ok parsed ↦
        if not (same_text parsed.scheme origin.scheme)
        then err (message ("scheme mismatch" ∷ []))
        else if not (same_text parsed.host origin.host)
        then err (message ("host mismatch" ∷ []))
        else ok tt
  ]

  -- An empty URL ends the pages and is not looked at.
  unfoldable pub check_next : String → Url → Result (Unit {0})
  unfolding validate_next_url
  check_next next origin = if is_empty next then ok tt else validate_next_url next origin

  abbrev pub limit_error : ℕ → String → IngestResult → IngestResult
  limit_error left next r =
      if left == 0 && not (is_empty next)
      then add_error (message ("pagination limit reached" ∷ [])) r
      else r

  -- The pages, of which `left` may still be fetched.
  unfoldable pub ingest_pages :
      ℕ → SourceConfig → Url → String → IngestResult → State W → IngestResult × State W
  unfolding fetch_page ingest_documents check_next
  ingest_pages zero cfg origin cur result s = (result, s)
  ingest_pages (suc left) cfg origin cur result s = elim (is_empty cur) [
    | true ↦ (result, s)
    | false ↦
        let (r, t) = fetch_page cur cfg s in
        elim r [
          | err e ↦ (add_error e result, t)
          | ok page ↦
              let (result', w) =
                ingest_documents page.documents cfg.collection cfg.source_id result t.world in
              let u : State W = record t { world = w } in
              elim (check_next page.next_url origin) [
                | err e ↦ (add_error (wrap ("next_url rejected" ∷ []) e) result', u)
                | ok _ ↦
                    ingest_pages left cfg origin page.next_url
                      (limit_error left page.next_url result') u
              ]
        ]
  ]

  unfoldable pub ingest : String → List SourceConfig → State W → Result IngestResult × State W
  unfolding find_source value_of ingest_pages
  ingest id sources s = elim (find_source id sources) [
    | none ↦ (err (message ("rest connector: source" ∷ id ∷ "not connected" ∷ [])), s)
    | some cfg ↦
        let url = value_of "url" cfg.config in
        elim (o.parse_url url) [
          | err e ↦ (err (wrap ("rest connector: invalid origin url" ∷ []) e), s)
          | ok origin ↦
              let (result, s') = ingest_pages max_pages cfg origin url nothing_yet s in
              (ok result, s')
        ]
  ]
