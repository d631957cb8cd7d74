-- ===== src/Panel/Guard.antt =====
-- The guard `inFlight` of panel/api: it holds the ids of the operations that are going on, each once.
use fox_fleet.Prelude.{
  ◌≡◌, refl, ap, ◌∙◌, String, List, [], ◌∷◌, true, false, if_pos, if_neg, string_discrete, arith,
  map,
}
use mathlib.Core.List.{Memᴰ}
use fox_fleet.Cloud.Rows.{Db}
use fox_fleet.Cloud.Invariant.{Inv}
use fox_fleet.Panel.Server.{Job, is_in_flight, clear, without_job}

abbrev pub id_of : Job → String
id_of j = j.id

abbrev pub Distinct : List String → Type 0
Distinct [] = Unit {0}
Distinct (i ∷ is) = (is_in_flight i is ≡ false) × Distinct is

-- The guard, the jobs, and the tables.
pub record Guarded (nocase : String → String) (db : Db) (in_flight : List String) (jobs : List Job)
    : Type 0 where
  pub ids : map id_of jobs ≡ in_flight
  pub distinct : Distinct in_flight
  pub tables : Inv nocase db

is_in_flight-clear :
    (i k : String) (is : List String)
    → is_in_flight i is ≡ false
    → is_in_flight i (clear k is) ≡ false
unfolding is_in_flight clear
is_in_flight-clear i k [] h = h
is_in_flight-clear i k (j ∷ is) h = ground (arith, is_in_flight-clear i k is)

Distinct-clear : (k : String) (is : List String) → Distinct is → Distinct (clear k is)
unfolding clear
Distinct-clear k [] d = tt
Distinct-clear k (i ∷ is) d = elim (string_discrete i k) [
  | yes p ↦ rw (if_pos _ p) (Distinct-clear k is d.1)
  | no p ↦ rw (if_neg _ p) (is_in_flight-clear i k is d.0, Distinct-clear k is d.1)
]

pub clear-absent : (k : String) (is : List String) → is_in_flight k is ≡ false → clear k is ≡ is
unfolding is_in_flight clear
clear-absent k [] h = refl
clear-absent k (i ∷ is) h = ground (arith, clear-absent k is)

pub clear-set : (k : String) (is : List String) → is_in_flight k is ≡ false → clear k (k ∷ is) ≡ is
unfolding clear
clear-set k is h = ground (arith, clear-absent k is h)

map-without_job :
    (k : String) (js : List Job) → map id_of (without_job k js) ≡ clear k (map id_of js)
unfolding clear without_job
map-without_job k [] = refl
map-without_job k (j ∷ js) = ground (arith, map-without_job k js)

module _ (nocase : String → String) where
  -- A job starts under a free id.
  pub Guarded-start :
      (db db' : Db) (is : List String) (js : List Job) (j : Job)
      → is_in_flight j.id is ≡ false
      → Inv nocase db'
      → Guarded nocase db is js
      → Guarded nocase db' (j.id ∷ is) (j ∷ js)
  Guarded-start db db' is js j free v g = record {
    ids = ap (λ l. j.id ∷ l) g.ids;
    distinct = (free, g.distinct);
    tables = v;
  }

  -- A job ends.
  pub Guarded-end :
      (db db' : Db) (is : List String) (js : List Job) (k : String)
      → Inv nocase db'
      → Guarded nocase db is js
      → Guarded nocase db' (clear k is) (without_job k js)
  Guarded-end db db' is js k v g = record {
    ids = map-without_job k js ∙ ap (clear k) g.ids;
    distinct = Distinct-clear k is g.distinct;
    tables = v;
  }

  -- The guard is set, and cleared again.
  pub Guarded-set_clear :
      (db db' : Db) (is : List String) (js : List Job) (k : String)
      → is_in_flight k is ≡ false
      → Inv nocase db'
      → Guarded nocase db is js
      → Guarded nocase db' (clear k (k ∷ is)) js
  Guarded-set_clear db db' is js k free v g =
      rw (clear-set k is free) (record { ids = g.ids; distinct = g.distinct; tables = v })

pub Memᴰ-in_flight : (j : Job) (js : List Job) → Memᴰ j js → is_in_flight j.id (map id_of js) ≡ true
unfolding is_in_flight
Memᴰ-in_flight j [] m = elim m [ ]
Memᴰ-in_flight j (x ∷ js) (Memᴰ.head p) = ground arith
Memᴰ-in_flight j (x ∷ js) (Memᴰ.tail m) = ground (arith, Memᴰ-in_flight j js m)
