-- ===== src/Cloud/Invariant.antt =====
-- What every method of internal/cloud, and every write of the registry, keeps of the three tables:
-- their keys and their foreign keys.
use fox_fleet.Prelude.{
  ◌≡◌, ◌≢◌, refl, String, Option, none, some, List, [], ◌∷◌, ◌++◌, if_pos, if_neg, string_discrete,
  arith, All, true, false, Bool-cases, inl, inr,
}
use fox_fleet.Registry.Rows.{Row, delete_where}
use fox_fleet.Registry.Lookup.{find-delete}
use fox_fleet.Registry.Writes.{}
use fox_fleet.Cloud.Rows.{
  UserRow, Session, Db, same_instance, refers, clear_instance, find_user, update_user, delete_user,
  instance_taken, cascade,
}
use fox_fleet.Cloud.Unique.{
  UniqueUsers, KeepsUser, Assigns, UniqueUsers-update, UniqueUsers-assign, UniqueUsers-append,
  UniqueUsers-delete, UniqueUsers-clear,
}
use fox_fleet.Cloud.Hashes.{Thins, Thins-All, UniqueHashes}

-- Every user's instance is in the table.
abbrev pub Bound : List Row → List UserRow → Type 0
Bound rows us = All (λ u. refers u.instance_id rows ≡ true) us

module _ (nocase : String → String) where
  -- Every session's user is in the table.
  abbrev pub Owned : List UserRow → List Session → Type 0
  Owned us ss = All (λ s. find_user nocase (nocase s.user_id) us ≢ none) ss

  pub record Good (rows : List Row) (ss : List Session) (us : List UserRow) : Type 0 where
    pub unique : UniqueUsers nocase us
    pub bound : Bound rows us
    pub owned : Owned us ss

  pub record Inv (db : Db) : Type 0 where
    pub good : Good db.instances db.sessions db.users
    pub hashes : UniqueHashes db.sessions

  Owned-map :
      (us vs : List UserRow) (ss : List Session)
      → ((k : String) → find_user nocase k us ≢ none → find_user nocase k vs ≢ none)
      → Owned us ss
      → Owned vs ss
  Owned-map us vs [] m o = tt
  Owned-map us vs (s ∷ ss) m o = (m (nocase s.user_id) o.0, Owned-map us vs ss m o.1)

  find_user-update :
      (key : String) (f : UserRow → UserRow) (us : List UserRow)
      → ((u : UserRow) → (f u).username ≡ u.username)
      → (k : String) → find_user nocase k us ≢ none
      → find_user nocase k (update_user nocase key f us) ≢ none
  unfolding find_user update_user
  find_user-update key f [] c k h = h
  find_user-update key f (u ∷ us) c k h = ground (arith, c u, find_user-update key f us c k)

  Bound-update :
      (rows : List Row) (key : String) (f : UserRow → UserRow) (us : List UserRow)
      → ((u : UserRow) → refers u.instance_id rows ≡ true → refers (f u).instance_id rows ≡ true)
      → Bound rows us
      → Bound rows (update_user nocase key f us)
  unfolding update_user
  Bound-update rows key f [] c b = tt
  Bound-update rows key f (u ∷ us) c b = ground (arith, c u b.0, Bound-update rows key f us c b.1)

  pub Good-keep :
      (key : String) (f : UserRow → UserRow) (rows : List Row) (ss : List Session)
      (us : List UserRow)
      → KeepsUser nocase f
      → Good rows ss us
      → Good rows ss (update_user nocase key f us)
  Good-keep key f rows ss us c g = record {
    unique = UniqueUsers-update nocase key f us c g.unique;
    bound = Bound-update rows key f us (λ u h. rw (c u).1 h) g.bound;
    owned = Owned-map us _ ss (find_user-update key f us (λ u. (c u).0)) g.owned;
  }

  pub Good-assign :
      (key : String) (i : Option String) (f : UserRow → UserRow) (rows : List Row)
      (ss : List Session) (us : List UserRow)
      → Assigns nocase i f
      → instance_taken nocase key i us ≡ false
      → refers i rows ≡ true
      → Good rows ss us
      → Good rows ss (update_user nocase key f us)
  Good-assign key i f rows ss us c free there g = record {
    unique = UniqueUsers-assign nocase key i f us c free g.unique;
    bound = Bound-update rows key f us (λ u h. rw (c u).1 there) g.bound;
    owned = Owned-map us _ ss (find_user-update key f us (λ u. (c u).0)) g.owned;
  }

  find_user-append :
      (us : List UserRow) (x : UserRow) (k : String)
      → find_user nocase k us ≢ none
      → find_user nocase k (us ++ x ∷ []) ≢ none
  unfolding find_user
  find_user-append [] x k h = absurd (h refl)
  find_user-append (u ∷ us) x k h = ground (arith, find_user-append us x k)

  Bound-append :
      (rows : List Row) (us : List UserRow) (x : UserRow)
      → refers x.instance_id rows ≡ true
      → Bound rows us
      → Bound rows (us ++ x ∷ [])
  Bound-append rows [] x h b = (h, tt)
  Bound-append rows (u ∷ us) x h b = (b.0, Bound-append rows us x h b.1)

  pub Good-append :
      (rows : List Row) (ss : List Session) (us : List UserRow) (x : UserRow)
      → find_user nocase (nocase x.username) us ≡ none
      → x.instance_id ≡ none
      → Good rows ss us
      → Good rows ss (us ++ x ∷ [])
  unfolding refers
  Good-append rows ss us x new none_yet g = record {
    unique = UniqueUsers-append nocase us x new none_yet g.unique;
    bound = Bound-append rows us x (rw none_yet refl) g.bound;
    owned = Owned-map us _ ss (find_user-append us x) g.owned;
  }

  find_user-delete :
      (key k : String) (us : List UserRow)
      → k ≢ key
      → find_user nocase k us ≢ none
      → find_user nocase k (delete_user nocase key us) ≢ none
  unfolding find_user delete_user
  find_user-delete key k [] n h = h
  find_user-delete key k (u ∷ us) n h = ground (arith, find_user-delete key k us n)

  Bound-delete :
      (rows : List Row) (key : String) (us : List UserRow)
      → Bound rows us
      → Bound rows (delete_user nocase key us)
  unfolding delete_user
  Bound-delete rows key [] b = tt
  Bound-delete rows key (u ∷ us) b = ground (arith, Bound-delete rows key us b.1)

  Owned-cascade :
      (key : String) (us : List UserRow) (ss : List Session)
      → Owned us ss
      → Owned (delete_user nocase key us) (cascade nocase key ss)
  unfolding cascade
  Owned-cascade key us [] o = tt
  Owned-cascade key us (s ∷ ss) o = elim (string_discrete (nocase s.user_id) key) [
    | yes p ↦ rw (if_pos _ p) (Owned-cascade key us ss o.1)
    | no p ↦
        rw (if_neg _ p)
          (find_user-delete key (nocase s.user_id) us p o.0, Owned-cascade key us ss o.1)
  ]

  pub Good-delete :
      (key : String) (rows : List Row) (ss : List Session) (us : List UserRow)
      → Good rows ss us
      → Good rows (cascade nocase key ss) (delete_user nocase key us)
  Good-delete key rows ss us g = record {
    unique = UniqueUsers-delete nocase key us g.unique;
    bound = Bound-delete rows key us g.bound;
    owned = Owned-cascade key us ss g.owned;
  }

  pub Good-thin :
      (rows : List Row) (us : List UserRow) {ss ts : List Session}
      → Thins ss ts
      → Good rows ss us
      → Good rows ts us
  Good-thin rows us t g = record {
    unique = g.unique;
    bound = g.bound;
    owned = Thins-All (λ s. find_user nocase (nocase s.user_id) us ≢ none) t g.owned;
  }

  find_user-clear :
      (id : String) (us : List UserRow) (k : String)
      → find_user nocase k us ≢ none
      → find_user nocase k (clear_instance id us) ≢ none
  unfolding find_user clear_instance
  find_user-clear id [] k h = h
  find_user-clear id (u ∷ us) k h = ground (arith, find_user-clear id us k)

  refers-delete :
      (id : String) (i : Option String) (rows : List Row)
      → same_instance i (some id) ≡ false
      → refers i rows ≡ true
      → refers i (delete_where id rows) ≡ true
  unfolding refers same_instance
  refers-delete id none rows n h = refl
  refers-delete id (some j) rows n h = ground (arith, find-delete id j rows)

  Bound-clear :
      (id : String) (rows : List Row) (us : List UserRow)
      → Bound rows us
      → Bound (delete_where id rows) (clear_instance id us)
  unfolding clear_instance refers
  Bound-clear id rows [] b = tt
  Bound-clear id rows (u ∷ us) b = elim (Bool-cases (same_instance u.instance_id (some id))) [
    | inl p ↦ rw p (refl, Bound-clear id rows us b.1)
    | inr p ↦ rw p (refers-delete id u.instance_id rows p b.0, Bound-clear id rows us b.1)
  ]

  pub Good-clear :
      (id : String) (rows : List Row) (ss : List Session) (us : List UserRow)
      → Good rows ss us
      → Good (delete_where id rows) ss (clear_instance id us)
  Good-clear id rows ss us g = record {
    unique = UniqueUsers-clear nocase id us g.unique;
    bound = Bound-clear id rows us g.bound;
    owned = Owned-map us _ ss (find_user-clear id us) g.owned;
  }

  Bound-map :
      (rows rows' : List Row) (us : List UserRow)
      → ((i : Option String) → refers i rows ≡ true → refers i rows' ≡ true)
      → Bound rows us
      → Bound rows' us
  Bound-map rows rows' [] m b = tt
  Bound-map rows rows' (u ∷ us) m b = (m u.instance_id b.0, Bound-map rows rows' us m b.1)

  pub Good-rows :
      (rows rows' : List Row) (ss : List Session) (us : List UserRow)
      → ((i : Option String) → refers i rows ≡ true → refers i rows' ≡ true)
      → Good rows ss us
      → Good rows' ss us
  Good-rows rows rows' ss us m g = record {
    unique = g.unique;
    bound = Bound-map rows rows' us m g.bound;
    owned = g.owned;
  }

  Owned-append :
      (us : List UserRow) (ss : List Session) (s : Session)
      → find_user nocase (nocase s.user_id) us ≢ none
      → Owned us ss
      → Owned us (ss ++ s ∷ [])
  Owned-append us [] s h o = (h, tt)
  Owned-append us (t ∷ ss) s h o = (o.0, Owned-append us ss s h o.1)

  pub Good-session :
      (rows : List Row) (ss : List Session) (us : List UserRow) (s : Session)
      → find_user nocase (nocase s.user_id) us ≢ none
      → Good rows ss us
      → Good rows (ss ++ s ∷ []) us
  Good-session rows ss us s h g = record {
    unique = g.unique;
    bound = g.bound;
    owned = Owned-append us ss s h g.owned;
  }
