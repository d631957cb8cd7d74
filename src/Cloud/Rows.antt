-- ===== src/Cloud/Rows.antt =====
-- The tables of internal/cloud, and the SQL that the statements are made of.
use fox_fleet.Prelude.{
  ℕ, String, Option, none, some, List, [], ◌∷◌, Bool, true, false, ite, string_discrete, ltb,
  if◌then◌else◌,
}
use fox_fleet.Registry.Rows.{Row}
use fox_fleet.Registry.Rows

pub record User : Type 0 where
  pub username : String
  pub instance_id : Option String
  pub created_at : ℕ
  pub updated_at : ℕ

pub record UserRow : Type 0 where
  pub user : User
  pub open user use *
  pub password_hash : String

pub record Session : Type 0 where
  pub token_hash : String
  pub user_id : String
  pub created_at : ℕ
  pub expires_at : ℕ

pub record Db : Type 0 where
  pub instances : List Row
  pub users : List UserRow
  pub sessions : List Session

-- Whether two entries of the column `instance_id`, which may be NULL, are one instance.
unfoldable pub same_instance : Option String → Option String → Bool
same_instance (some i) (some j) = ite (string_discrete i j) true false
same_instance _ _ = false

-- The foreign key of a user: NULL, or the id of an instance.
unfoldable pub refers : Option String → List Row → Bool
refers none rows = true
refers (some id) rows = elim (Rows.find id rows) [ none ↦ false | some _ ↦ true ]

-- UPDATE cloud_users SET …
abbrev pub set_password : String → ℕ → UserRow → UserRow
set_password hash now u = record u {
  user = record (u.user) { updated_at = now };
  password_hash = hash;
}

abbrev pub set_instance : Option String → ℕ → UserRow → UserRow
set_instance i now u = record u { user = record (u.user) { instance_id = i; updated_at = now } }

abbrev pub touch : ℕ → UserRow → UserRow
touch now u = record u { user = record (u.user) { updated_at = now } }

-- ON DELETE SET NULL of `instances`
unfoldable pub clear_instance : String → List UserRow → List UserRow
clear_instance id [] = []
clear_instance id (u ∷ us) =
    (if same_instance u.instance_id (some id)
      then record u { user = record (u.user) { instance_id = none } }
      else u)
    ∷ clear_instance id us

-- WHERE token_hash = ?
unfoldable pub find_session : String → List Session → Option Session
find_session h [] = none
find_session h (s ∷ ss) = ite (string_discrete s.token_hash h) (some s) (find_session h ss)

unfoldable pub delete_session : String → List Session → List Session
delete_session h [] = []
delete_session h (s ∷ ss) =
    let rest = delete_session h ss in ite (string_discrete s.token_hash h) rest (s ∷ rest)

-- WHERE user_id = ?, which compares the column's bytes
unfoldable pub delete_sessions_of : String → List Session → List Session
delete_sessions_of id [] = []
delete_sessions_of id (s ∷ ss) =
    let rest = delete_sessions_of id ss in ite (string_discrete s.user_id id) rest (s ∷ rest)

-- WHERE expires_at < ?
unfoldable pub delete_expired : ℕ → List Session → List Session
delete_expired now [] = []
delete_expired now (s ∷ ss) =
    let rest = delete_expired now ss in if ltb s.expires_at now then rest else s ∷ rest

module _ (nocase : String → String) where
  -- WHERE username = ?, for the name that `nocase` makes `key` of
  unfoldable pub find_user : String → List UserRow → Option UserRow
  find_user key [] = none
  find_user key (u ∷ us) = ite (string_discrete (nocase u.username) key) (some u) (find_user key us)

  unfoldable pub update_user : String → (UserRow → UserRow) → List UserRow → List UserRow
  update_user key f [] = []
  update_user key f (u ∷ us) =
      let rest = update_user key f us in
      ite (string_discrete (nocase u.username) key) (f u ∷ rest) (u ∷ rest)

  unfoldable pub delete_user : String → List UserRow → List UserRow
  delete_user key [] = []
  delete_user key (u ∷ us) =
      let rest = delete_user key us in ite (string_discrete (nocase u.username) key) rest (u ∷ rest)

  -- Whether a row of another user has the instance: the unique index on `instance_id`.
  unfoldable pub instance_taken : String → Option String → List UserRow → Bool
  unfolding same_instance
  instance_taken key i [] = false
  instance_taken key i (u ∷ us) =
      let rest = instance_taken key i us in
      ite (string_discrete (nocase u.username) key) rest
        (if same_instance u.instance_id i then true else rest)

  -- ON DELETE CASCADE of `cloud_users`
  unfoldable pub cascade : String → List Session → List Session
  cascade key [] = []
  cascade key (s ∷ ss) =
      let rest = cascade key ss in ite (string_discrete (nocase s.user_id) key) rest (s ∷ rest)
