-- ===== src/Cloud/Methods.antt =====
-- What each writing method of internal/cloud keeps of the keys and the foreign keys of the tables.
use fox_fleet.Prelude.{
  ℕ, ◌+◌, ◌/◌, ◌≡◌, ◌≢◌, String, Option, none, some, List, [], ◌∷◌, ◌++◌, arith, Bool-cases,
  Option-cases, Result-cases, inl, inr, Result, ok, err, Error,
}
use fox_fleet.Registry.Rows.{}
use fox_fleet.Registry.Writes.{}
use fox_fleet.Cloud.Rows.{UserRow, Session, Db, find_session, find_user}
use fox_fleet.Cloud.Hashes.{
  Thins, Thins-UniqueHashes, UniqueHashes-append, cascade-Thins, delete_session-Thins,
}
use fox_fleet.Cloud.Users.{
  UpdateErrors, new_user, create_user, to_null, assign, updated_users, update, delete,
  set_instance_id,
}
use fox_fleet.Cloud.Sessions.{second, is_expired, delete_by_hash, create_session, validate}
use fox_fleet.Cloud.Invariant.{Inv, Good-append, Good-delete, Good-thin, Good-session}
use fox_fleet.Cloud.Stages.{assign-Good, updated_users-Good}

module _ (nocase sha256_hex : String → String) where
  new_user-new :
      (fault : Option Error) (hashed : Result String) (now : ℕ) (name password : String) (db : Db)
      {x : UserRow}
      → new_user nocase fault hashed now name password db ≡ ok x
      → (find_user nocase (nocase x.username) db.users ≡ none) × (x.instance_id ≡ none)
  unfolding new_user
  new_user-new fault hashed now name password db h = ground arith

  pub create_user-Inv :
      (fault : Option Error) (hashed : Result String) (now : ℕ) (name password : String) (db : Db)
      → Inv nocase db
      → Inv nocase ((create_user nocase fault hashed now name password db).1)
  unfolding create_user
  create_user-Inv fault hashed now name password db v =
      elim (Result-cases (new_user nocase fault hashed now name password db)) [
        | inr (e, p) ↦ rw (p, create_user) v
        | inl (x, p) ↦
            let q = new_user-new fault hashed now name password db p in
            rw (p, create_user)
              (record {
                good = Good-append nocase db.instances db.sessions db.users x q.0 q.1 v.good;
                hashes = v.hashes;
              })
      ]

  pub update-Inv :
      (f : UpdateErrors) (hashed : Result String) (now : ℕ) (name : String)
      (password id : Option String) (db : Db)
      → Inv nocase db
      → Inv nocase ((update nocase f hashed now name password id db).1)
  unfolding update
  update-Inv f hashed now name password id db v =
      elim (Result-cases (updated_users nocase f hashed now name password id db)) [
        | inr (e, p) ↦ rw (p, update) v
        | inl (us, p) ↦
            rw (p, update)
              (record {
                good = updated_users-Good nocase f hashed now name password id db p v.good;
                hashes = v.hashes;
              })
      ]

  pub delete-Inv :
      (fault : Option Error) (name : String) (db : Db)
      → Inv nocase db
      → Inv nocase ((delete nocase fault name db).1)
  unfolding delete
  delete-Inv (some e) name db v = v
  delete-Inv none name db v = elim (Option-cases (find_user nocase (nocase name) db.users)) [
    | inl p ↦ rw (p, delete) v
    | inr (u, p) ↦
        rw (p, delete)
          (record {
            good = Good-delete nocase (nocase name) db.instances db.sessions db.users v.good;
            hashes = Thins-UniqueHashes (cascade-Thins nocase (nocase name) db.sessions) v.hashes;
          })
  ]

  pub set_instance_id-Inv :
      (fault : Option Error) (now : ℕ) (name id : String) (db : Db)
      → Inv nocase db
      → Inv nocase ((set_instance_id nocase fault now name id db).1)
  unfolding set_instance_id
  set_instance_id-Inv (some e) now name id db v = v
  set_instance_id-Inv none now name id db v =
      elim (Result-cases (assign nocase (nocase name) (to_null id) now db db.users)) [
        | inr (e, p) ↦ rw (p, set_instance_id) v
        | inl (us, p) ↦ elim (Option-cases (find_user nocase (nocase name) db.users)) [
          | inl q ↦ rw (p, q, set_instance_id) v
          | inr (u, q) ↦
              rw (p, q, set_instance_id)
                (record {
                  good = assign-Good nocase (nocase name) (to_null id) now db db.users p v.good;
                  hashes = v.hashes;
                })
        ]
      ]

  -- The database with some sessions left out.
  pub thin-Inv :
      (db : Db) {ts : List Session}
      → Thins db.sessions ts
      → Inv nocase db
      → Inv nocase (record db { sessions = ts })
  thin-Inv db t v = record {
    good = Good-thin nocase db.instances db.users t v.good;
    hashes = Thins-UniqueHashes t v.hashes;
  }

  pub delete_by_hash-Inv :
      (fault : Option Error) (hash : String) (db : Db)
      → Inv nocase db
      → Inv nocase ((delete_by_hash fault hash db).1)
  unfolding delete_by_hash
  delete_by_hash-Inv (some e) hash db v = v
  delete_by_hash-Inv none hash db v = elim (Option-cases (find_session hash db.sessions)) [
    | inl p ↦ rw (p, delete_by_hash) v
    | inr (s, p) ↦ rw (p, delete_by_hash) (thin-Inv db (delete_session-Thins hash db.sessions) v)
  ]

  pub validate-Inv :
      (fault delete_fault : Option Error) (now : ℕ) (token : String) (db : Db)
      → Inv nocase db
      → Inv nocase ((validate nocase sha256_hex fault delete_fault now token db).1)
  unfolding validate
  validate-Inv (some e) delete_fault now token db v = v
  validate-Inv none delete_fault now token db v =
      elim (Option-cases (find_session (sha256_hex token) db.sessions)) [
        | inl p ↦ rw (p, validate) v
        | inr (s, p) ↦ elim (Bool-cases (is_expired s now)) [
          | inl q ↦ rw (p, q, validate) (delete_by_hash-Inv delete_fault (sha256_hex token) db v)
          | inr q ↦ rw (p, q, validate) v
        ]
      ]

  append-Inv :
      (db : Db) (s : Session)
      → find_session s.token_hash db.sessions ≡ none
      → find_user nocase (nocase s.user_id) db.users ≢ none
      → Inv nocase db
      → Inv nocase (record db { sessions = db.sessions ++ s ∷ [] })
  append-Inv db s new there v = record {
    good = Good-session nocase db.instances db.sessions db.users s there v.good;
    hashes = UniqueHashes-append db.sessions s new v.hashes;
  }

  pub create_session-Inv :
      (fault : Option Error) (random : Result String) (now ttl : ℕ) (user : String) (db : Db)
      → Inv nocase db
      → Inv nocase ((create_session nocase sha256_hex fault random now ttl user db).1)
  unfolding create_session
  create_session-Inv fault (err e) now ttl user db v = ground arith
  create_session-Inv (some e) (ok token) now ttl user db v = ground arith
  create_session-Inv none (ok token) now ttl user db v =
      elim (Option-cases (find_session (sha256_hex token) db.sessions)) [
        | inr (s, p) ↦ ground arith
        | inl p ↦ elim (Option-cases (find_user nocase (nocase user) db.users)) [
          | inl q ↦ ground arith
          | inr (u, q) ↦ ground (
            arith,
            append-Inv db
                (record {
                  token_hash = sha256_hex token;
                  user_id = user;
                  created_at = now / second;
                  expires_at = (now + ttl) / second;
                })
                p (rw q (ground arith)) v,
          )
        ]
      ]
