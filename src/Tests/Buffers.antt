-- ===== src/Tests/Buffers.antt =====
-- Runs of the chunker, the rate limiter and the event log.
use fox_fleet.Prelude.{
  ℕ, ◌*◌, ◌≤◌, ◌≡◌, refl, String, none, some, List, [], ◌∷◌, arith, reverse, take, if◌then◌else◌,
  ◌==◌, get_elem?,
}
use fox_fleet.Prelude.Errors.{foreign}
use fox_fleet.Prelude.Int.{pos}
use fox_fleet.Chunker.{Chunk, chunks, split, apply_defaults}
use fox_fleet.Chunker.Windows.{opts, stride_of, split-windows, window_at, size_of}
use fox_fleet.Chunker.Rebuild.{prefixes, split-rebuild}
use fox_fleet.RateLimit.{
  RateLimiter, rate_limit_middleware, serve_next, admitted, refill, unit, second,
}
use fox_fleet.RateLimit.Bounds.{admitted_budget, retry_served}
use fox_fleet.Events.Store.{Store, newer}
use fox_fleet.Events.Log.{Log, new_log, new_persistent_log, emit, write, recent, since_id}
use fox_fleet.Events.Log.History.{
  Call, emits, event_of, numbered, last_n, memory_log-recent, memory_log-since_id, capacity_of,
}
use fox_fleet.Events.Log.Restart.{restart-recent, failed_insert-duplicates}

four_runes :
    split (1 ∷ 2 ∷ 3 ∷ 4 ∷ []) (opts 3 (pos 1))
    ≡ chunks
        (record { text = 1 ∷ 2 ∷ 3 ∷ []; index = 0 } ∷ record { text = 3 ∷ 4 ∷ []; index = 1 } ∷ [])
unfolding split
four_runes = refl

abbrev four : List ℕ
four = 1 ∷ 2 ∷ 3 ∷ 4 ∷ []

split-windows_example :
    (cs : List Chunk) × (split four (opts 3 (pos 1)) ≡ chunks cs)
    × ((i : ℕ)
        → get_elem? cs i
          ≡ window_at four (size_of (opts 3 (pos 1))) (i * stride_of (opts 3 (pos 1))) i)
unfolding apply_defaults
split-windows_example = split-windows four 3 (pos 1) (omega arith, omega arith)

split-rebuild_example :
    (cs : List Chunk) × (split (1 ∷ 2 ∷ 3 ∷ 4 ∷ []) (opts 3 (pos 1)) ≡ chunks cs)
    × (prefixes 2 cs ≡ 1 ∷ 2 ∷ 3 ∷ 4 ∷ [])
unfolding split apply_defaults
split-rebuild_example = split-rebuild (1 ∷ 2 ∷ 3 ∷ 4 ∷ []) 3 1 (omega arith, omega arith)

-- One request a minute, all used up.
abbrev empty_bucket : RateLimiter
empty_bucket = record { tokens = 0; max = unit; rate = 1; last_tick = 0 }

admitted_budget_example : (admitted empty_bucket (5 ∷ 7 ∷ [])).1 * unit ≤ 7
admitted_budget_example = admitted_budget empty_bucket (5 ∷ 7 ∷ []) (omega arith)

retry_served_example :
    (rate_limit_middleware (rate_limit_middleware empty_bucket 0).0 (61 * second)).1 ≡ serve_next
unfolding rate_limit_middleware refill
retry_served_example =
    retry_served empty_bucket 0 (61 * second) 61 (omega arith) (omega arith) refl (omega arith)

abbrev call : String → Call
call m = record {
  fault = none;
  now = 7_000_000_000;
  type = "restart";
  instance_id = "fox-1";
  message = m;
}

abbrev calls : List Call
calls = call "a" ∷ call "b" ∷ call "c" ∷ []

two_newest :
    recent 0 (emits calls (new_log 2)).ring ≡ event_of 3 (call "c") ∷ event_of 2 (call "b") ∷ []
unfolding new_log emit recent write
two_newest = refl

memory_log-recent_example :
    recent 1 (emits calls (new_log 2)).ring
    ≡ take
        (if 1 == 0 then capacity_of 2 else 1)
        (reverse (last_n (capacity_of 2) (numbered 0 calls)))
memory_log-recent_example = memory_log-recent 2 1 calls (omega arith)

memory_log-since_id_example :
    since_id 2 (emits calls (new_log 2)).ring ≡ newer 2 (last_n (capacity_of 2) (numbered 0 calls))
memory_log-since_id_example = memory_log-since_id 2 2 calls (omega arith)

abbrev table : Store
table = record { rows = event_of 2 (call "b") ∷ event_of 1 (call "a") ∷ []; last_id = 2 }

restart-recent_example :
    recent 0 (new_persistent_log none 2 table).ring
    ≡ take (if 0 == 0 then 2 else 0) (take 2 table.rows)
restart-recent_example = restart-recent 2 0 table (omega arith)

abbrev open_log : Log
open_log = record (new_log 2) { store = some table; seq = 2 }

abbrev broken : Call
broken = record (call "x") { fault = some (foreign "disk full") }

failed_insert-duplicates_example :
    (emit none 7_000_000_000 "restart" "fox-1" "d"
      (emit (some (foreign "disk full")) 7_000_000_000 "restart" "fox-1" "x" open_log).0).0.ring
    ≡ write (event_of 3 (call "d")) (write (event_of 3 broken) open_log.ring)
failed_insert-duplicates_example =
    failed_insert-duplicates open_log table broken (call "d") (foreign "disk full") refl refl refl
      refl (omega arith)
