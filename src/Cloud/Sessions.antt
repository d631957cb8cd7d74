-- ===== src/Cloud/Sessions.antt =====
-- internal/cloud/sessions.go: the methods of `SessionStore`, and the deletion of an instance with what
-- the foreign key does to the users. `now` is in nanoseconds; the columns hold seconds.
use fox_fleet.Prelude.{
  ℕ, ◌+◌, ◌-◌, ◌*◌, ◌/◌, String, Bool, Option, none, some, [], ◌∷◌, ◌++◌, length, ltb,
  if◌then◌else◌, Result, ok, err, Error, wrap, message, foreign, session_not_found,
}
use fox_fleet.Config.{is_empty}
use fox_fleet.Registry.Instances
use fox_fleet.Cloud.Rows.{
  Session, Db, find_user, find_session, delete_session, delete_sessions_of, delete_expired,
  clear_instance,
}

abbrev pub second : ℕ
second = 1_000_000_000

-- `time.Now().UTC().After(expiresAt)`
abbrev pub is_expired : Session → ℕ → Bool
is_expired s now = ltb (s.expires_at * second) now

unfoldable pub delete_by_hash : Option Error → String → Db → Result (Unit {0}) × Db
delete_by_hash (some e) hash db = (err (wrap ("cloud: delete session" ∷ []) e), db)
delete_by_hash none hash db = elim (find_session hash db.sessions) [
  | none ↦ (err session_not_found, db)
  | some _ ↦ (ok tt, record db { sessions = delete_session hash db.sessions })
]

-- The number of the rows that are gone.
unfoldable pub delete_by_user : Option Error → String → Db → Result ℕ × Db
delete_by_user (some e) user_id db =
    (err (wrap ("cloud: delete sessions for user" ∷ user_id ∷ []) e), db)
delete_by_user none user_id db =
    let rest = delete_sessions_of user_id db.sessions in
    (ok (length db.sessions - length rest), record db { sessions = rest })

unfoldable pub purge_expired : Option Error → ℕ → Db → Result ℕ × Db
purge_expired (some e) now db = (err (wrap ("cloud: purge expired sessions" ∷ []) e), db)
purge_expired none now db =
    let rest = delete_expired (now / second) db.sessions in
    (ok (length db.sessions - length rest), record db { sessions = rest })

-- `Delete` of the registry: a row that goes leaves NULL with its user.
unfoldable pub delete_instance : Option Error → String → Db → Result (Unit {0}) × Db
delete_instance fault id db =
    let (answer, rows) = Instances.delete fault id db.instances in
    elim answer [
      | err e ↦ (err e, db)
      | ok _ ↦ (ok tt, record db { instances = rows; users = clear_instance id db.users })
    ]

module _ (nocase sha256_hex : String → String) where
  -- `random` is the text of the random bytes. A user must exist, and a hash is taken once.
  unfoldable pub create_session :
      Option Error → Result String → ℕ → ℕ → String → Db → Result (String × Session) × Db
  create_session fault random now ttl user_id db =
      let fail = λ (e : Error). wrap ("cloud: create session" ∷ []) e in
      if is_empty user_id
      then (err (message ("cloud: user_id must not be empty" ∷ [])), db)
      else (elim random [
        | err e ↦ (err (wrap ("cloud: generate session token" ∷ []) e), db)
        | ok token ↦
            let session : Session = record {
              token_hash = sha256_hex token;
              user_id = user_id;
              created_at = now / second;
              expires_at = (now + ttl) / second;
            } in
            elim fault [
              | some e ↦ (err (fail e), db)
              | none ↦ elim (find_session session.token_hash db.sessions) [
                | some _ ↦
                    (err (fail (foreign "UNIQUE constraint failed: cloud_sessions.token_hash")), db)
                | none ↦ elim (find_user nocase (nocase user_id) db.users) [
                  | none ↦ (err (fail (foreign "FOREIGN KEY constraint failed")), db)
                  | some _ ↦
                      (ok (token, session), record db { sessions = db.sessions ++ session ∷ [] })
                ]
              ]
            ]
      ])

  -- A session that is expired is deleted, whatever comes of that, and not found.
  unfoldable pub validate : Option Error → Option Error → ℕ → String → Db → Result Session × Db
  unfolding delete_by_hash
  validate fault delete_fault now token db =
      let hash = sha256_hex token in
      elim fault [
        | some e ↦ (err (wrap ("cloud: validate session" ∷ []) e), db)
        | none ↦ elim (find_session hash db.sessions) [
          | none ↦ (err session_not_found, db)
          | some s ↦
              if is_expired s now
              then (err session_not_found, (delete_by_hash delete_fault hash db).1)
              else (ok s, db)
        ]
      ]

  unfoldable pub delete_token : Option Error → String → Db → Result (Unit {0}) × Db
  delete_token fault token db = delete_by_hash fault (sha256_hex token) db
