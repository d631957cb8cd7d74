-- ===== src/Panel/Users.antt =====
-- panel/api/user_handlers.go: the handlers of /api/users, on the tables of internal/cloud. The body of
-- a request is the argument `body`, none where it is no valid JSON or too long.
use Prim.Native.String.{len}
use fox_fleet.Prelude.{
  ℕ, String, Option, none, some, List, Bool, false, not, ltb, if◌then◌else◌, Result, ok, err, Error,
  cause, user_not_found, user_exists,
}
use fox_fleet.Config.{is_empty}
use fox_fleet.Cloud.Rows.{User, Db}
use fox_fleet.Cloud.Users
use fox_fleet.Cloud.Users.{UpdateErrors, create_user, list_users, get_user, update}
use fox_fleet.Panel.Http.{
  Response, reply, empty, bad_request, internal_error, conflict, not_found_response,
}
use fox_fleet.Panel.Names.{valid_cloud_username, valid_instance_id}

pub record CreateUserRequest : Type 0 where
  pub username : String
  pub password : String

pub record UpdateUserRequest : Type 0 where
  pub password : Option String
  pub instance_id : Option String

-- The answers to an error, by what `errors.Is` finds in it.
abbrev pub create_failure : {A : Type 0} → Error → Response A
create_failure user_exists = conflict
create_failure _ = internal_error

abbrev pub user_failure : {A : Type 0} → Error → Response A
user_failure user_not_found = not_found_response
user_failure _ = internal_error

-- A password is given, and is shorter than eight bytes.
abbrev pub too_short : Option String → Bool
too_short none = false
too_short (some p) = ltb (len p) 8

module _ (nocase : String → String) where
  abbrev created : Result User × Db → Response User × Db
  created (ok u, db) = (reply 201 u, db)
  created (err e, db) = (create_failure (cause e), db)

  unfoldable pub handle_create_user :
      Option Error → Result String → ℕ → Option CreateUserRequest → Db → Response User × Db
  handle_create_user fault hashed now none db = (bad_request, db)
  handle_create_user fault hashed now (some req) db =
      if is_empty req.username
      then (bad_request, db)
      else if not (valid_cloud_username req.username)
      then (bad_request, db)
      else if ltb (len req.password) 8
      then (bad_request, db)
      else created (create_user nocase fault hashed now req.username req.password db)

  unfoldable pub handle_list_users : Option Error → Db → Response (List User)
  handle_list_users fault db = elim (list_users fault db) [
    | ok us ↦ reply 200 us
    | err e ↦ internal_error
  ]

  unfoldable pub handle_get_user : Option Error → String → Db → Response User
  handle_get_user fault username db =
      if not (valid_instance_id username)
      then bad_request
      else (elim (get_user nocase fault username db) [
        | ok u ↦ reply 200 u
        | err e ↦ user_failure (cause e)
      ])

  abbrev updated : Result User × Db → Response User × Db
  updated (ok u, db) = (reply 200 u, db)
  updated (err e, db) = (user_failure (cause e), db)

  unfoldable pub handle_update_user :
      UpdateErrors → Result String → ℕ → String → Option UpdateUserRequest → Db → Response User × Db
  handle_update_user f hashed now username none db = (bad_request, db)
  handle_update_user f hashed now username (some req) db =
      if not (valid_instance_id username)
      then (bad_request, db)
      else if too_short req.password
      then (bad_request, db)
      else updated (update nocase f hashed now username req.password req.instance_id db)

  abbrev deleted : Result (Unit {0}) × Db → Response (Unit {0}) × Db
  deleted (ok _, db) = (empty 204, db)
  deleted (err e, db) = (user_failure (cause e), db)

  unfoldable pub handle_delete_user : Option Error → String → Db → Response (Unit {0}) × Db
  handle_delete_user fault username db =
      if not (valid_instance_id username)
      then (bad_request, db)
      else deleted (Users.delete nocase fault username db)
