-- ===== src/Registry/Unique.antt =====
-- The keys of the table `instances`: ids are a primary key, and ports are UNIQUE.
use fox_fleet.Prelude.{
  ℕ, ◌≡◌, ◌≢◌, String, none, List, [], ◌∷◌, ◌++◌, if_pos, if_neg, string_discrete, arith, All,
  false,
}
use fox_fleet.Registry.Rows.{Row, find, update, delete_where, port_taken}

-- No row has the id, and none the port.
abbrev pub Apart : String → ℕ → List Row → Type 0
Apart id port rs = All (λ q. (q.id ≢ id) × (q.port ≢ port)) rs

abbrev pub Unique : List Row → Type 0
Unique [] = Unit {0}
Unique (r ∷ rs) = Apart r.id r.port rs × Unique rs

-- A change of a row that keeps its keys.
abbrev pub Keeps : (Row → Row) → Type 0
Keeps f = (r : Row) → ((f r).id ≡ r.id) × ((f r).port ≡ r.port)

-- A change of a row that keeps its id and moves it to a port.
abbrev pub Moves : ℕ → (Row → Row) → Type 0
Moves p f = (r : Row) → ((f r).id ≡ r.id) × ((f r).port ≡ p)

Apart-update :
    (i : String) (p : ℕ) (id : String) (f : Row → Row) (rs : List Row)
    → Keeps f
    → Apart i p rs
    → Apart i p (update id f rs)
unfolding update
Apart-update i p id f [] k a = tt
Apart-update i p id f (r ∷ rs) k a = ground (arith, k r, Apart-update i p id f rs k a.1)

pub Unique-update :
    (id : String) (f : Row → Row) (rs : List Row) → Keeps f → Unique rs → Unique (update id f rs)
unfolding update
Unique-update id f [] k u = tt
Unique-update id f (r ∷ rs) k u =
    let rest = Unique-update id f rs k u.1 in
    let apart = Apart-update r.id r.port id f rs k u.0 in
    elim (string_discrete r.id id) [
      | yes p ↦ rw (if_pos _ p) (rw ((k r).0, (k r).1) (apart, rest))
      | no p ↦ rw (if_neg _ p) (apart, rest)
    ]

-- A row that does not have the id, where no row but those of the id has port `p`.
Apart-move :
    (i : String) (q : ℕ) (id : String) (p : ℕ) (f : Row → Row) (rs : List Row)
    → Moves p f
    → q ≢ p
    → Apart i q rs
    → Apart i q (update id f rs)
unfolding update
Apart-move i q id p f [] k h a = tt
Apart-move i q id p f (r ∷ rs) k h a = ground (arith, k r, Apart-move i q id p f rs k h a.1)

-- A port that only the id may have is apart from the other rows.
Apart-free :
    (id : String) (q p : ℕ) (f : Row → Row) (rs : List Row)
    → port_taken id p rs ≡ false
    → Apart id q rs
    → Apart id p (update id f rs)
unfolding update port_taken
Apart-free id q p f [] h a = tt
Apart-free id q p f (r ∷ rs) h a = ground (arith, Apart-free id q p f rs)

pub Unique-move :
    (id : String) (p : ℕ) (f : Row → Row) (rs : List Row)
    → Moves p f
    → port_taken id p rs ≡ false
    → Unique rs
    → Unique (update id f rs)
unfolding update port_taken
Unique-move id p f [] k h u = tt
Unique-move id p f (r ∷ rs) k h u = elim (string_discrete r.id id) [
  | yes e ↦
      let h' : port_taken id p rs ≡ false = ground arith in
      rw (if_pos _ e) (
        rw ((k r).0, (k r).1, e)
          (Apart-free id r.port p f rs h' (rw e at u.0), Unique-move id p f rs k h' u.1))
  | no e ↦
      let h' : port_taken id p rs ≡ false = ground arith in
      let q : r.port ≢ p = ground arith in
      rw (if_neg _ e) (Apart-move r.id r.port id p f rs k q u.0, Unique-move id p f rs k h' u.1)
]

Apart-append :
    (i : String) (p : ℕ) (rs : List Row) (x : Row)
    → Apart i p rs
    → (x.id ≢ i) × (x.port ≢ p)
    → Apart i p (rs ++ x ∷ [])
Apart-append i p [] x a h = (h, tt)
Apart-append i p (r ∷ rs) x a h = (a.0, Apart-append i p rs x a.1 h)

-- A new row under a new id and a free port.
pub Unique-append :
    (rs : List Row) (x : Row)
    → find x.id rs ≡ none
    → port_taken x.id x.port rs ≡ false
    → Unique rs
    → Unique (rs ++ x ∷ [])
unfolding find port_taken
Unique-append [] x f h u = (tt, tt)
Unique-append (r ∷ rs) x f h u = (
  Apart-append r.id r.port rs x u.0 (ground arith),
  Unique-append rs x (ground arith) (ground arith) u.1,
)

Apart-delete :
    (i : String) (p : ℕ) (id : String) (rs : List Row)
    → Apart i p rs
    → Apart i p (delete_where id rs)
unfolding delete_where
Apart-delete i p id [] a = tt
Apart-delete i p id (r ∷ rs) a = ground (arith, Apart-delete i p id rs a.1)

pub Unique-delete : (id : String) (rs : List Row) → Unique rs → Unique (delete_where id rs)
unfolding delete_where
Unique-delete id [] u = tt
Unique-delete id (r ∷ rs) u =
    ground (arith, Unique-delete id rs u.1, Apart-delete r.id r.port id rs u.0)
