-- ===== src/Cloud/Users.antt =====
-- internal/cloud/users.go: the methods of `UserStore`. bcrypt is outside: the hash of a new password
-- is the argument `hashed`, the comparison the argument `matches`, which gets the hash first.
use fox_fleet.Prelude.{
  ℕ, String, Option, none, some, List, [], ◌∷◌, ◌++◌, Bool, true, false, not, ite, map, dec_le,
  if◌then◌else◌, Result, ok, err, Error, wrap, message, foreign, user_not_found, user_exists,
  invalid_credentials,
}
use fox_fleet.Config.{is_empty}
use fox_fleet.Cloud.Rows.{
  User, UserRow, Db, refers, set_password, set_instance, touch, find_user, update_user, delete_user,
  instance_taken, cascade,
}

infixl 5 ◌>>=◌ ◌>>◌
abbrev ◌>>=◌ : {A B : Type 0} → Result A → (A → Result B) → Result B
ok a >>= f = f a
err e >>= f = err e

abbrev ◌>>◌ : {B : Type 0} → Result (Unit {0}) → Result B → Result B
m >> k = m >>= λ _. k

-- A statement's error, with the words round it.
abbrev pub or_fault : List String → Option Error → Result (Unit {0})
or_fault words none = ok tt
or_fault words (some e) = err (wrap words e)

abbrev pub require : Bool → Error → Result (Unit {0})
require true e = ok tt
require false e = err e

-- The errors of the statements of `Update`, where they have one.
pub record UpdateErrors : Type 0 where
  pub begin : Option Error
  pub check : Option Error
  pub password : Option Error
  pub instance_id : Option Error
  pub touch : Option Error
  pub commit : Option Error
  pub get : Option Error

abbrev pub user_of : UserRow → User
user_of r = r.user

-- ORDER BY created_at; rows of one second stay in the order of their insertion.
unfoldable pub insert_user_by_time : UserRow → List UserRow → List UserRow
insert_user_by_time r [] = r ∷ []
insert_user_by_time r (q ∷ qs) =
    let rest = insert_user_by_time r qs in
    ite (dec_le r.created_at q.created_at) (r ∷ q ∷ qs) (q ∷ rest)

unfoldable pub order_users : List UserRow → List UserRow
unfolding insert_user_by_time
order_users [] = []
order_users (r ∷ rs) = insert_user_by_time r (order_users rs)

unfoldable pub list_users : Option Error → Db → Result (List User)
unfolding order_users
list_users (some e) db = err (wrap ("cloud: list users" ∷ []) e)
list_users none db = ok (map user_of (order_users db.users))

-- An empty instance id stands for NULL.
abbrev pub to_null : String → Option String
to_null id = if is_empty id then none else some id

module _ (nocase : String → String) where
  unfoldable pub get_user : Option Error → String → Db → Result User
  get_user (some e) username db = err (wrap ("cloud: get user" ∷ username ∷ []) e)
  get_user none username db = elim (find_user nocase (nocase username) db.users) [
    | none ↦ err user_not_found
    | some r ↦ ok (r.user)
  ]

  -- The new row of `Create`, or its error.
  unfoldable pub new_user : Option Error → Result String → ℕ → String → String → Db → Result UserRow
  new_user fault hashed now username password db = do
    require (not (is_empty username)) (message ("cloud: username must not be empty" ∷ []))
    require (not (is_empty password)) (message ("cloud: password must not be empty" ∷ []))
    hash ← elim hashed [ ok h ↦ ok h | err e ↦ err (wrap ("cloud: hash password" ∷ []) e) ]
    or_fault ("cloud: create user" ∷ username ∷ []) fault
    elim (find_user nocase (nocase username) db.users) [
      | some _ ↦ err user_exists
      | none ↦ ok (record {
        user = record {
          username = username;
          instance_id = none;
          created_at = now;
          updated_at = now;
        };
        password_hash = hash;
      })
    ]

  unfoldable pub create_user :
      Option Error → Result String → ℕ → String → String → Db → Result User × Db
  create_user fault hashed now username password db =
      elim (new_user fault hashed now username password db) [
        | err e ↦ (err e, db)
        | ok row ↦ (ok (row.user), record db { users = db.users ++ row ∷ [] })
      ]

  -- UPDATE … SET instance_id = ? WHERE username = ?: the constraints are checked where there is
  -- such a row.
  unfoldable pub assign : String → Option String → ℕ → Db → List UserRow → Result (List UserRow)
  assign key i now db users = elim (find_user nocase key users) [
    | none ↦ ok users
    | some _ ↦
        if refers i db.instances
        then if instance_taken nocase key i users
          then err (foreign "UNIQUE constraint failed: cloud_users.instance_id")
          else ok (update_user nocase key (set_instance i now) users)
        else err (foreign "FOREIGN KEY constraint failed")
  ]

  unfoldable pub change_password :
      Option Error
      → Result String
      → ℕ
      → String
      → Option String
      → List UserRow
      → Result (List UserRow)
  change_password fault hashed now key none users = ok users
  change_password fault hashed now key (some password) users = do
    require (not (is_empty password)) (message ("cloud: password must not be empty" ∷ []))
    hash ← elim hashed [ ok h ↦ ok h | err e ↦ err (wrap ("cloud: hash password" ∷ []) e) ]
    or_fault ("cloud: update password" ∷ []) fault
    ok (update_user nocase key (set_password hash now) users)

  unfoldable pub change_instance :
      Option Error → ℕ → String → Option String → Db → List UserRow → Result (List UserRow)
  change_instance fault now key none db users = ok users
  change_instance fault now key (some id) db users = do
    let words =
        (if is_empty id then "cloud: clear instance_id" else "cloud: update instance_id") ∷ []
    or_fault words fault
    elim (assign key (to_null id) now db users) [ ok us ↦ ok us | err e ↦ err (wrap words e) ]

  unfoldable pub touch_if :
      Option Error
      → ℕ
      → String
      → Option String
      → Option String
      → List UserRow
      → Result (List UserRow)
  touch_if fault now key none none users = do
    or_fault ("cloud: touch updated_at" ∷ []) fault
    ok (update_user nocase key (touch now) users)
  touch_if fault now key password instance_id users = ok users

  -- The table that the transaction of `Update` commits, or its error.
  unfoldable pub updated_users :
      UpdateErrors
      → Result String
      → ℕ
      → String
      → Option String
      → Option String
      → Db
      → Result (List UserRow)
  updated_users f hashed now username password instance_id db = do
    let key = nocase username
    or_fault ("cloud: begin tx" ∷ []) f.begin
    or_fault ("cloud: update user check" ∷ []) f.check
    elim (find_user nocase key db.users) [ none ↦ err user_not_found | some _ ↦ ok tt ]
    us ← change_password f.password hashed now key password db.users
    us' ← change_instance f.instance_id now key instance_id db us
    us'' ← touch_if f.touch now key password instance_id us'
    or_fault ("cloud: commit update" ∷ []) f.commit
    ok us''

  -- What is not given is left as it is. The answer is read back after the commit.
  unfoldable pub update :
      UpdateErrors
      → Result String
      → ℕ
      → String
      → Option String
      → Option String
      → Db
      → Result User × Db
  update f hashed now username password instance_id db =
      elim (updated_users f hashed now username password instance_id db) [
        | err e ↦ (err e, db)
        | ok us ↦ let db' : Db = record db { users = us } in (get_user f.get username db', db')
      ]

  unfoldable pub delete : Option Error → String → Db → Result (Unit {0}) × Db
  delete (some e) username db = (err (wrap ("cloud: delete user" ∷ username ∷ []) e), db)
  delete none username db =
      let key = nocase username in
      elim (find_user nocase key db.users) [
        | none ↦ (err user_not_found, db)
        | some _ ↦ (
          ok tt,
          record db {
            users = delete_user nocase key db.users;
            sessions = cascade nocase key db.sessions;
          },
        )
      ]

  unfoldable pub authenticate :
      (String → String → Bool) → Option Error → String → String → Db → Result User
  authenticate matches (some e) username password db =
      err (wrap ("cloud: authenticate" ∷ username ∷ []) e)
  authenticate matches none username password db =
      elim (find_user nocase (nocase username) db.users) [
        | none ↦ err invalid_credentials
        | some r ↦ if matches r.password_hash password then ok (r.user) else err invalid_credentials
      ]

  unfoldable pub set_instance_id : Option Error → ℕ → String → String → Db → Result (Unit {0}) × Db
  set_instance_id fault now username instance_id db =
      let words = "cloud: set instance_id for" ∷ username ∷ [] in
      let key = nocase username in
      elim fault [
        | some e ↦ (err (wrap words e), db)
        | none ↦ elim (assign key (to_null instance_id) now db db.users) [
          | err e ↦ (err (wrap words e), db)
          | ok us ↦ elim (find_user nocase key db.users) [
            | none ↦ (err user_not_found, db)
            | some _ ↦ (ok tt, record db { users = us })
          ]
        ]
      ]
