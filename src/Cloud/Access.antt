-- ===== src/Cloud/Access.antt =====
-- Who gets in: the sessions that `Validate` lets pass.
use fox_fleet.Prelude.{
  ℕ, ◌+◌, ◌*◌, ◌/◌, ◌≤◌, ◌≡◌, ◌≢◌, subst, String, Option, none, some, List, [], ◌∷◌, ◌++◌,
  string_discrete, arith, All, Bool, Bool-cases, Option-cases, Result-cases, inl, inr, ltb,
  if◌then◌else◌, Result, ok, err, Error, session_not_found, invalid_credentials,
}
use fox_fleet.Cloud.Rows.{
  User, UserRow, Session, Db, find_session, delete_session, find_user, cascade,
}
use fox_fleet.Cloud.Users.{new_user, create_user, delete, authenticate}
use fox_fleet.Cloud.Sessions.{second, create_session, validate, is_expired, delete_by_hash}
use fox_fleet.Cloud.Invariant.{Inv}

find_session-append :
    (s : Session) (ss : List Session)
    → find_session s.token_hash ss ≡ none
    → find_session s.token_hash (ss ++ s ∷ []) ≡ some s
unfolding find_session
find_session-append s [] h = ground arith
find_session-append s (t ∷ ss) h = ground (arith, find_session-append s ss)

find_session-All :
    (P : Session → Type 0) (h : String) (ss : List Session) (s : Session)
    → find_session h ss ≡ some s
    → All P ss
    → P s
unfolding find_session
find_session-All P h [] s e a = absurd (ground arith)
find_session-All P h (t ∷ ss) s e a = elim (string_discrete t.token_hash h) [
  | yes p ↦ let q : t ≡ s = ground arith in subst P q a.0
  | no p ↦ find_session-All P h ss s (ground arith) a.1
]

find_session-none :
    (h : String) (ss : List Session) (P : Session → Type 0)
    → All P ss
    → ((s : Session) → find_session h ss ≡ some s → P s → ⊥)
    → find_session h ss ≡ none
find_session-none h ss P a n = elim (Option-cases (find_session h ss)) [
  | inl p ↦ p
  | inr (s, p) ↦ absurd (n s p (find_session-All P h ss s p a))
]

-- No session has a user of the name.
abbrev NoSession : (String → String) → String → List Session → Type 0
NoSession nocase key ss = All (λ s. nocase s.user_id ≢ key) ss

cascade-NoSession :
    (nocase : String → String) (key : String) (ss : List Session)
    → NoSession nocase key (cascade nocase key ss)
unfolding cascade
cascade-NoSession nocase key [] = tt
cascade-NoSession nocase key (s ∷ ss) = ground (arith, cascade-NoSession nocase key ss)

module _ (nocase sha256_hex : String → String) where
  -- A session that `Validate` gives has not expired and is in the table, under the hash of the
  -- token.
  pub validate-found :
      (fault delete_fault : Option Error) (now : ℕ) (token : String) (db db' : Db) (s : Session)
      → validate nocase sha256_hex fault delete_fault now token db ≡ (ok s, db')
      → (find_session (sha256_hex token) db.sessions ≡ some s)
        × ((now ≤ s.expires_at * second) × (db' ≡ db))
  unfolding validate
  validate-found fault delete_fault now token db db' s h =
      elim (Option-cases (find_session (sha256_hex token) db.sessions)) [
        | inl p ↦ ground arith
        | inr (t, p) ↦ elim (Bool-cases (is_expired t now)) [
          | inl q ↦ ground arith
          | inr q ↦ ground arith
        ]
      ]

  -- Where the keys of the tables hold, a session that `Validate` gives is in the table under the
  -- hash of the token, it has not expired, its user exists, and nothing is changed.
  pub validate_sound :
      (fault delete_fault : Option Error) (now : ℕ) (token : String) (db db' : Db) (s : Session)
      → Inv nocase db
      → validate nocase sha256_hex fault delete_fault now token db ≡ (ok s, db')
      → (find_session (sha256_hex token) db.sessions ≡ some s)
        × ((now ≤ s.expires_at * second)
            × ((find_user nocase (nocase s.user_id) db.users ≢ none) × (db' ≡ db)))
  validate_sound fault delete_fault now token db db' s v h =
      let q = validate-found fault delete_fault now token db db' s h in
      let P : Session → Type 0 = λ t. find_user nocase (nocase t.user_id) db.users ≢ none in
      (q.0, (q.1.0, (find_session-All P (sha256_hex token) db.sessions s q.0 v.good.owned, q.1.1)))

  create_session-stored :
      (fault : Option Error) (random : Result String) (now ttl : ℕ) (user token : String)
      (db db' : Db) (s : Session)
      → create_session nocase sha256_hex fault random now ttl user db ≡ (ok (token, s), db')
      → (find_session s.token_hash db'.sessions ≡ some s)
        × ((s.token_hash ≡ sha256_hex token)
            × ((s.user_id ≡ user) × (s.expires_at ≡ (now + ttl) / second)))
  unfolding create_session
  create_session-stored fault (err e) now ttl user token db db' s h = ground arith
  create_session-stored (some e) (ok t) now ttl user token db db' s h = ground arith
  create_session-stored none (ok t) now ttl user token db db' s h =
      let x : Session = record {
        token_hash = sha256_hex t;
        user_id = user;
        created_at = now / second;
        expires_at = (now + ttl) / second;
      } in
      elim (Option-cases (find_session (sha256_hex t) db.sessions)) [
        | inr (y, p) ↦ ground arith
        | inl p ↦ elim (Option-cases (find_user nocase (nocase user) db.users)) [
          | inl q ↦ ground arith
          | inr (u, q) ↦ ground (arith, find_session-append x db.sessions p)
        ]
      ]

  -- The token of a new session lets its user in up to and at its expiry, which is the time of its
  -- creation plus its duration, cut to whole seconds; the first attempt after that finds no session
  -- and deletes it.
  pub validate-create_session :
      (fault : Option Error) (random : Result String) (now ttl later : ℕ) (user token : String)
      (db db' : Db) (s : Session)
      → create_session nocase sha256_hex fault random now ttl user db ≡ (ok (token, s), db')
      → validate nocase sha256_hex none none later token db' ≡ (
          if ltb ((now + ttl) / second * second) later
          then (
            err session_not_found,
            record db' { sessions = delete_session s.token_hash db'.sessions },
          )
          else (ok s, db'))
        × ((s.user_id ≡ user) × (s.expires_at ≡ (now + ttl) / second))
  unfolding validate delete_by_hash
  validate-create_session fault random now ttl later user token db db' s h =
      let q = create_session-stored fault random now ttl user token db db' s h in
      elim (Bool-cases (ltb ((now + ttl) / second * second) later)) [
        | inl p ↦ ground arith
        | inr p ↦ ground arith
      ]

  -- Once a user is deleted, whatever session is let in is another user's.
  pub validate-delete :
      (fault delete_fault : Option Error) (now : ℕ) (name token : String) (db db' db'' : Db)
      (s : Session)
      → delete nocase none name db ≡ (ok tt, db')
      → validate nocase sha256_hex fault delete_fault now token db' ≡ (ok s, db'')
      → nocase s.user_id ≢ nocase name
  unfolding delete
  validate-delete fault delete_fault now name token db db' db'' s d h =
      let q = validate-found fault delete_fault now token db' db'' s h in
      let ss = cascade nocase (nocase name) db.sessions in
      let e : db'.sessions ≡ ss = ground arith in
      find_session-All (λ t. nocase t.user_id ≢ nocase name) (sha256_hex token) ss s (rw (← e) q.0)
        (cascade-NoSession nocase (nocase name) db.sessions)

  find_user-append :
      (us : List UserRow) (x : UserRow)
      → find_user nocase (nocase x.username) us ≡ none
      → find_user nocase (nocase x.username) (us ++ x ∷ []) ≡ some x
  unfolding find_user
  find_user-append [] x h = ground arith
  find_user-append (u ∷ us) x h = ground (arith, find_user-append us x)

  new_user-row :
      (fault : Option Error) (hash : String) (now : ℕ) (name password : String) (db : Db)
      (x : UserRow)
      → new_user nocase fault (ok hash) now name password db ≡ ok x
      → (x.username ≡ name)
        × ((x.password_hash ≡ hash) × (find_user nocase (nocase name) db.users ≡ none))
  unfolding new_user
  new_user-row fault hash now name password db x h = ground arith

  -- A new user is let in, under the name in any case, by the passwords that the comparison accepts
  -- for the stored hash, and by no other.
  pub authenticate-create_user :
      (matches : String → String → Bool) (fault : Option Error) (hash : String) (now : ℕ)
      (name password login attempt : String) (db db' : Db) (u : User)
      → create_user nocase fault (ok hash) now name password db ≡ (ok u, db')
      → nocase login ≡ nocase name
      → authenticate nocase matches none login attempt db'
        ≡ (if matches hash attempt then ok u else err invalid_credentials)
  unfolding create_user authenticate
  authenticate-create_user matches fault hash now name password login attempt db db' u h e =
      elim (Result-cases (new_user nocase fault (ok hash) now name password db)) [
        | inr (x, p) ↦ absurd (ground arith)
        | inl (x, p) ↦
            let q = new_user-row fault hash now name password db x p in
            ground (arith, find_user-append db.users x)
      ]
