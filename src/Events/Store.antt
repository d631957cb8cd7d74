-- ===== src/Events/Store.antt =====
-- internal/events/store.go: the table `events`, newest row first, which is the order by its key.
-- The argument `fault` is the SQL engine's error, if the statement fails.
use fox_fleet.Prelude.{
  ℕ, ◌+◌, String, Option, none, some, List, [], ◌∷◌, Result, ok, err, Error, wrap, ite, dec_lt,
  dec_le, string_discrete, reverse, take,
}
use fox_fleet.Events.Event.{Event}

-- `last_id` is the sequence of AUTOINCREMENT, which never gives an id twice.
pub record Store : Type 0 where
  pub rows : List Event
  pub last_id : ℕ

unfoldable pub insert : Option Error → Event → Store → Result ℕ × Store
insert (some e) event s = (err (wrap ("events: insert" ∷ []) e), s)
insert none event s =
    let id = s.last_id + 1 in
    (ok id, record { rows = record event { id = id } ∷ s.rows; last_id = id })

unfoldable pub recent : Option Error → ℕ → Store → Result (List Event)
recent (some e) n s = err (wrap ("events: recent" ∷ []) e)
recent none n s = ok (take n s.rows)

-- WHERE instance = ? AND created_at >= ?
unfoldable pub of_instance : String → ℕ → List Event → List Event
of_instance id since [] = []
of_instance id since (e ∷ es) =
    let rest = of_instance id since es in
    ite (string_discrete e.instance_id id) (ite (dec_le since e.created_at) (e ∷ rest) rest) rest

unfoldable pub by_instance : Option Error → String → ℕ → ℕ → Store → Result (List Event)
by_instance (some e) id since limit s = err (wrap ("events: by_instance" ∷ []) e)
by_instance none id since limit s = ok (take limit (of_instance id since s.rows))

-- WHERE id > ?
unfoldable pub newer : ℕ → List Event → List Event
newer last_id [] = []
newer last_id (e ∷ es) = let rest = newer last_id es in ite (dec_lt last_id e.id) (e ∷ rest) rest

-- ORDER BY id ASC
unfoldable pub since_id : Option Error → ℕ → Store → Result (List Event)
since_id (some e) last_id s = err (wrap ("events: since" ∷ []) e)
since_id none last_id s = ok (reverse (newer last_id s.rows))
