-- ===== src/Ingestion/Origin.antt =====
-- For which URLs the REST connector calls its HTTP client. The client follows redirects by itself,
-- to any host: they are part of a call and not looked at here.
use fox_fleet.Prelude.{
  ℕ, zero, suc, ◌+◌, ◌≤◌, ◌≡◌, refl, String, some, List, [], ◌∷◌, false, length, arith, All,
  Bool-cases, Result-cases, inl, inr, ok,
}
use fox_fleet.Config.{is_empty}
use fox_fleet.Ingestion.{SourceConfig, IngestResult, nothing_yet, value_of, find_source}
use fox_fleet.Ingestion.Rest.{
  Url, Outside, State, max_pages, decode_page, fetch_page, ingest_documents, validate_next_url,
  check_next, limit_error, ingest_pages, ingest,
}

module _ {W V : Type 0} (o : Outside W V) where
  -- A URL of the scheme and the host of the origin.
  abbrev pub SameOrigin : Url → String → Type 0
  SameOrigin origin url =
      (v : Url) × ((o.parse_url url ≡ ok v) × ((v.scheme ≡ origin.scheme) × (v.host ≡ origin.host)))

  abbrev pub Sent : Url → String → String × String → Type 0
  Sent origin token r = SameOrigin origin (r.0) × (r.1 ≡ token)

  validate_next_url-SameOrigin :
      (next : String) (origin : Url)
      → validate_next_url o next origin ≡ ok tt
      → SameOrigin origin next
  unfolding validate_next_url
  validate_next_url-SameOrigin next origin h = elim (Result-cases (o.parse_url next)) [
    | inr (e, p) ↦ absurd (ground arith)
    | inl (v, p) ↦ (v, (p, (ground arith, ground arith)))
  ]

  check_next-SameOrigin :
      (next : String) (origin : Url)
      → check_next o next origin ≡ ok tt
      → is_empty next ≡ false
      → SameOrigin origin next
  unfolding check_next
  check_next-SameOrigin next origin h n = validate_next_url-SameOrigin next origin (ground arith)

  ingest_pages-Sent :
      (left : ℕ) (cfg : SourceConfig) (origin : Url) (cur : String) (result : IngestResult)
      (s : State W)
      → (is_empty cur ≡ false → SameOrigin origin cur)
      → All (Sent origin (value_of "bearer_token" cfg.credentials)) s.calls
      → All
          (Sent origin (value_of "bearer_token" cfg.credentials))
          ((ingest_pages o left cfg origin cur result s).1.calls)
        × (length ((ingest_pages o left cfg origin cur result s).1.calls) ≤ length s.calls + left)
  unfolding ingest_pages fetch_page
  ingest_pages-Sent zero cfg origin cur result s h a = (a, omega arith)
  ingest_pages-Sent (suc left) cfg origin cur result s h a =
      let token = value_of "bearer_token" cfg.credentials in
      let get = o.get cur token s.world in
      elim (Bool-cases (is_empty cur)) [
        | inl p ↦ rw (p, ingest_pages) (a, omega arith)
        | inr p ↦
            let sent : All (Sent origin token) ((cur, token) ∷ s.calls) = ((h p, refl), a) in
            elim (Result-cases (decode_page o cur (get.0))) [
              | inr (e, q) ↦ rw (p, q, ingest_pages) (sent, omega arith)
              | inl (page, q) ↦ elim (Result-cases (check_next o page.next_url origin)) [
                | inr (e, r) ↦ rw (p, q, r, ingest_pages) (sent, omega arith)
                | inl (x, r) ↦
                    let done =
                      ingest_documents o page.documents cfg.collection cfg.source_id result
                        (get.1) in
                    let rest =
                      ingest_pages-Sent left cfg origin page.next_url
                        (limit_error o left page.next_url (done.0))
                        (record { world = done.1; calls = (cur, token) ∷ s.calls })
                        (check_next-SameOrigin page.next_url origin r) sent in
                    rw (p, q, r, ingest_pages) (rest.0, omega (arith, rest.1))
              ]
            ]
      ]

  -- Every call of the HTTP client in a run is for a URL of the scheme and the host of the source, with
  -- the token of the source, whatever the pages give for the next URL, and there are a thousand calls
  -- at most. The redirects that the client follows within a call are not counted, and may go elsewhere.
  pub ingest-Sent :
      (id : String) (sources : List SourceConfig) (cfg : SourceConfig) (origin : Url) (w : W)
      → find_source id sources ≡ some cfg
      → o.parse_url (value_of "url" cfg.config) ≡ ok origin
      → All
          (Sent origin (value_of "bearer_token" cfg.credentials))
          ((ingest o id sources (record { world = w; calls = [] })).1.calls)
        × (length ((ingest o id sources (record { world = w; calls = [] })).1.calls) ≤ 1000)
  unfolding ingest
  ingest-Sent id sources cfg origin w f p =
      rw (f, p, ingest)
        (ingest_pages-Sent max_pages cfg origin (value_of "url" cfg.config) nothing_yet
          (record { world = w; calls = [] }) (λ n. (origin, (p, (refl, refl)))) tt)
