-- ===== src/Cloud/Operations.antt =====
-- The methods of internal/cloud that write, with those of the registry, as one kind of call: what
-- any sequence of them keeps of the keys and the foreign keys of the three tables.
use fox_fleet.Prelude.{
  ℕ, ◌/◌, ◌≡◌, ◌≢◌, String, Option, none, some, List, [], ◌∷◌, arith, Option-cases, inl, inr,
  Result, ok, Error,
}
use fox_fleet.Registry.Rows.{Row, delete_where}
use fox_fleet.Registry.Rows
use fox_fleet.Registry.Instances
use fox_fleet.Registry.Writes.{Write, creates, sets_status, sets_digest, sets_token, deletes, apply}
use fox_fleet.Cloud.Rows.{Db, clear_instance}
use fox_fleet.Cloud.Hashes.{delete_sessions_of-Thins, delete_expired-Thins}
use fox_fleet.Cloud.Users.{UpdateErrors, create_user, update, delete, set_instance_id}
use fox_fleet.Cloud.Sessions.{
  second, delete_by_user, purge_expired, delete_instance, create_session, validate, delete_token,
}
use fox_fleet.Cloud.Invariant.{Inv, Good-clear, Good-rows}
use fox_fleet.Cloud.Stages.{apply-refers}
use fox_fleet.Cloud.Methods.{
  create_user-Inv, update-Inv, delete-Inv, set_instance_id-Inv, thin-Inv, delete_by_hash-Inv,
  validate-Inv, create_session-Inv,
}

-- A call, with the errors and the random text of the outside, the time, and its arguments.
pub data Op : Type 0 where
  creates_user : Option Error → Result String → ℕ → String → String → Op
  updates_user : UpdateErrors → Result String → ℕ → String → Option String → Option String → Op
  deletes_user : Option Error → String → Op
  sets_instance : Option Error → ℕ → String → String → Op
  creates_session : Option Error → Result String → ℕ → ℕ → String → Op
  validates : Option Error → Option Error → ℕ → String → Op
  deletes_token : Option Error → String → Op
  deletes_sessions : Option Error → String → Op
  purges : Option Error → ℕ → Op
  writes : Option Error → Write → Op

module _ (nocase sha256_hex : String → String) where
  -- A deletion in the registry is the one that goes on to the users.
  abbrev pub write : Option Error → Write → Db → Db
  write fault (deletes id) db = (delete_instance fault id db).1
  write fault w db = record db { instances = (apply sha256_hex fault w db.instances).1 }

  abbrev pub step : Op → Db → Db
  step (creates_user fault hashed now name password) db =
      (create_user nocase fault hashed now name password db).1
  step (updates_user f hashed now name password id) db =
      (update nocase f hashed now name password id db).1
  step (deletes_user fault name) db = (delete nocase fault name db).1
  step (sets_instance fault now name id) db = (set_instance_id nocase fault now name id db).1
  step (creates_session fault random now ttl user) db =
      (create_session nocase sha256_hex fault random now ttl user db).1
  step (validates fault delete_fault now token) db =
      (validate nocase sha256_hex fault delete_fault now token db).1
  step (deletes_token fault token) db = (delete_token nocase sha256_hex fault token db).1
  step (deletes_sessions fault user) db = (delete_by_user fault user db).1
  step (purges fault now) db = (purge_expired fault now db).1
  step (writes fault w) db = write fault w db

  abbrev pub run : List Op → Db → Db
  run [] db = db
  run (o ∷ os) db = run os (step o db)

  rows-Inv :
      (fault : Option Error) (w : Write) (db : Db)
      → ((id : String) → w ≢ deletes id)
      → Inv nocase db
      → Inv nocase (record db { instances = (apply sha256_hex fault w db.instances).1 })
  rows-Inv fault w db n v = record {
    good =
        Good-rows nocase db.instances _ db.sessions db.users
          (apply-refers sha256_hex fault w db.instances n) v.good;
    hashes = v.hashes;
  }

  write-Inv :
      (fault : Option Error) (w : Write) (db : Db) → Inv nocase db → Inv nocase (write fault w db)
  unfolding delete_instance Instances.delete
  write-Inv fault (creates now i) db v = rows-Inv fault (creates now i) db (λ id. ground arith) v
  write-Inv fault (sets_status id x) db v =
      rows-Inv fault (sets_status id x) db (λ j. ground arith) v
  write-Inv fault (sets_digest id x) db v =
      rows-Inv fault (sets_digest id x) db (λ j. ground arith) v
  write-Inv fault (sets_token id x) db v = rows-Inv fault (sets_token id x) db (λ j. ground arith) v
  write-Inv (some e) (deletes id) db v = v
  write-Inv none (deletes id) db v = elim (Option-cases (Rows.find id db.instances)) [
    | inl p ↦ rw (p, write, delete_instance, Instances.delete) v
    | inr (r, p) ↦
        let after : Db = record {
          instances = delete_where id db.instances;
          users = clear_instance id db.users;
          sessions = db.sessions;
        } in
        let q : delete_instance none id db ≡ (ok tt, after) = ground arith in
        rw (q, write)
          (record {
            good = Good-clear nocase id db.instances db.sessions db.users v.good;
            hashes = v.hashes;
          })
  ]

  pub step-Inv : (o : Op) (db : Db) → Inv nocase db → Inv nocase (step o db)
  unfolding delete_token delete_by_user purge_expired
  step-Inv (creates_user fault hashed now name password) db v =
      create_user-Inv nocase sha256_hex fault hashed now name password db v
  step-Inv (updates_user f hashed now name password id) db v =
      update-Inv nocase sha256_hex f hashed now name password id db v
  step-Inv (deletes_user fault name) db v = delete-Inv nocase sha256_hex fault name db v
  step-Inv (sets_instance fault now name id) db v =
      set_instance_id-Inv nocase sha256_hex fault now name id db v
  step-Inv (creates_session fault random now ttl user) db v =
      create_session-Inv nocase sha256_hex fault random now ttl user db v
  step-Inv (validates fault delete_fault now token) db v =
      validate-Inv nocase sha256_hex fault delete_fault now token db v
  step-Inv (deletes_token fault token) db v =
      delete_by_hash-Inv nocase sha256_hex fault (sha256_hex token) db v
  step-Inv (deletes_sessions (some e) user) db v = v
  step-Inv (deletes_sessions none user) db v =
      thin-Inv nocase sha256_hex db (delete_sessions_of-Thins user db.sessions) v
  step-Inv (purges (some e) now) db v = v
  step-Inv (purges none now) db v =
      thin-Inv nocase sha256_hex db (delete_expired-Thins (now / second) db.sessions) v
  step-Inv (writes fault w) db v = write-Inv fault w db v

  -- Whatever calls are made, in whatever order and with whatever errors: where it held before them,
  -- no two users have one name up to case or one instance, no two sessions have one hash, every
  -- user's instance is a row of `instances`, and every session's user is a row of `cloud_users`.
  pub run-Inv : (os : List Op) (db : Db) → Inv nocase db → Inv nocase (run os db)
  run-Inv [] db v = v
  run-Inv (o ∷ os) db v = run-Inv os (step o db) (step-Inv o db v)
