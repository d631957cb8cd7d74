-- ===== src/Lib.antt =====
-- fox-fleet, the control plane of a fleet of Fox instances: a model of its core, written in Go, and
-- theorems about it. Paths are from the repository's root.
--
-- The parts and the files that model them:
--
-- * Registry (internal/registry/registry.go): the table of the instances. `Rows` has the SQL that the
--   statements are made of, `Instances` one function per method. A table is the list of its rows;
--   a method takes the error of the SQL engine, if the statement is not executed, and gives its
--   answer and the new table. `Writes` and `Invariant` put the writing methods together as one kind
--   of call, `Tokens` is about the check of query tokens, `Keys` has the signing keys,
--   `Backfill` the query tokens given to old rows.
-- * Provisioner (internal/provisioner/provisioner.go): `Defs` has the requests, the settings and
--   the choice of a port, `Service` the methods `Provision` and `Destroy`. They run in the monad of
--   `Machine` over the table, a state `W` of the world beyond the program, and a trace of what has
--   been asked of that world. `Outside` is everything the service calls in it: the SQL engine, the
--   deployment target, files, the clock, random tokens, the writer of the instance's configuration,
--   each a function that may change `W` and may fail. The loader of skillset files (skillsets) stands
--   in it too and is not modelled, and so does `MarkOnboardingComplete`, which `Config.Inject`
--   models. `Calls` names the calls of the outside that a run makes; `Undone` and `Failure` follow
--   them to the rollback.
-- * Plugins (plugins/plugin.go): the interface of a deployment target, and its messages.
-- * Config (internal/config): the check of the secrets and what Cloud adds to the environment of an
--   instance; `Environment` has the rest of `hermes.env`, `Inject` the files that are written.
--   `Reserved` and `Written` are about them.
-- * Events (internal/events): `Event`, the table in `Store`, the ring buffer and `Emit` in `Log`, the
--   choice of the webhooks' targets in `Webhook`.
-- * RateLimit (panel/api/ratelimit.go): the token bucket in front of the panel's API.
-- * Chunker (data-plane/chunker/chunker.go): the windows that a text is cut into.
-- * Rollout (rollout/rollout.go): a new image for all instances, one after another. `execute` is
--   `Execute`, on the same table and kind of trace as the provisioner's; its own `Outside` has the
--   target, the clock and the contexts. `Shape` and `Undo` relate a report to the table and the trace.
-- * Poller (panel/api/poller.go): one poll of the health of the instances, and the restarts.
-- * Cloud (internal/cloud): the users and the sessions, in tables beside the registry's: `Users` and
--   `Sessions` have one function per method, `Operations` puts them and the writes of the registry
--   together as one kind of call, `Access` is about who is let in.
-- * Panel (panel/api): the HTTP handlers. `Server` has the state they share; `Create`, `Provision` and
--   `Upgrade` start an operation on an instance and end it, `Steps` puts them together as steps in
--   any order; `Users` and `Instances` have the other handlers. `Hosts`, `Login` and `Subdomain` lead
--   a request for a user's subdomain to the user's instance; `Isolation` and `Apart` are about whom
--   they let through.
-- * SessionToken (internal/sessiontoken/token.go): the signed tokens of the stream of events, which
--   `Panel.Auth` issues and asks for.
-- * Embedding (data-plane/embedding/client.go): the requests for vectors and their
--   retries, and in `Places` where the vectors of an answer go.
-- * Ingestion (data-plane/ingestion): `File` and `Rest` are the connectors, on the chunks of Chunker and
--   the hashes of Sources; `Origin` and `Skipped` are about what they send and what they leave out.
-- * Sources (data-plane/source/registry.go): the data sources and, in `Tracking`, the hashes of their
--   documents.
--
-- Prelude has what they share, Tests the runs on concrete inputs.
--
-- How the state corresponds: a struct is a record with the source's fields, a method that changes its
-- receiver returns the new one, an error is a value of `Error`, and a map is the list of its
-- entries. The critical section of `Provision` is the function `reserve`; the calls of one log are
-- taken one after another.
--
-- Fuel: the loop of `Split` runs on one round more than the text has runes, which is enough since
-- each round begins at least one rune further; the scan for a port has the thousand rounds of the
-- source, and the retried update its three.
-- The batches of the file connector have a round to each pending chunk, and a batch takes one at least.
-- The REST connector has the thousand pages of the source.
-- The wait of a rollout takes its fuel as an argument; with the source's defaults (120 s, and pauses of
-- two seconds at least) 62 rounds are enough.
--
-- Not modelled: the bounds of Go's `int`, but for the sums of Chunker and of the scan for a port,
-- which wrap around at 64 bits (the counters of events wrap at 2^64); two calls of `Log.Emit` at
-- one time, whose events may be written in the other order than they were numbered; the redirects
-- that an `http.Client` follows within one call; the rounding of floats in the token buckets, whose
-- tokens are exact fractions here; the texts of times, which are Unix seconds; timeouts of contexts
-- and pauses; logging; the interleaving of calls in several goroutines; the tickers that call a
-- method again and again. A handler of the panel is one step up to the start of its goroutine,
-- which ends in another; between them come the writes of the provisioner, each a step. Left out are
-- the handlers of skillsets, queries and events, the HTTP middleware, the Docker plugin, the
-- command line, the client of Qdrant, the servers of the data plane, and the conformance suites.
pub mod Prelude
pub mod Plugins
pub mod Config
pub mod Registry
pub mod Machine
pub mod Cloud
pub mod Provisioner
pub mod Rollout
pub mod Poller
pub mod Events
pub mod RateLimit
pub mod Chunker
pub mod Sources
pub mod Panel
pub mod SessionToken
pub mod Embedding
pub mod Ingestion
mod Tests
