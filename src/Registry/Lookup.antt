-- ===== src/Registry/Lookup.antt =====
-- The table `instances` as a map: what `find` sees after each of the SQL statements.
use mathlib.Core.Option
use fox_fleet.Prelude.{
  ◌≡◌, ◌≢◌, refl, String, none, some, List, [], ◌∷◌, ◌++◌, ite, string_discrete, arith,
}
use fox_fleet.Registry.Rows.{Row, find, update, delete_where}

pub find-id : (id : String) (rs : List Row) (r : Row) → find id rs ≡ some r → r.id ≡ id
unfolding find
find-id id [] r h = cc
find-id id (q ∷ rs) r h = ground (arith, find-id id rs r)

pub find-update_self :
    (id : String) (f : Row → Row) (rs : List Row)
    → ((r : Row) → (f r).id ≡ r.id)
    → find id (update id f rs) ≡ Option.map f (find id rs)
unfolding find update
find-update_self id f [] k = refl
find-update_self id f (r ∷ rs) k = ground (arith, k r, find-update_self id f rs k)

pub find-update_ne :
    (id j : String) (f : Row → Row) (rs : List Row)
    → ((r : Row) → (f r).id ≡ r.id)
    → j ≢ id
    → find j (update id f rs) ≡ find j rs
unfolding find update
find-update_ne id j f [] k h = refl
find-update_ne id j f (r ∷ rs) k h = ground (arith, k r, find-update_ne id j f rs k h)

pub find-append :
    (j : String) (rs : List Row) (x : Row)
    → find x.id rs ≡ none
    → find j (rs ++ x ∷ []) ≡ ite (string_discrete x.id j) (some x) (find j rs)
unfolding find
find-append j [] x h = refl
find-append j (r ∷ rs) x h = ground (arith, find-append j rs x)

pub find-delete :
    (id j : String) (rs : List Row)
    → find j (delete_where id rs) ≡ ite (string_discrete id j) none (find j rs)
unfolding find delete_where
find-delete id j [] = ground arith
find-delete id j (r ∷ rs) = ground (arith, find-delete id j rs)
