-- ===== src/Panel/Login.antt =====
-- panel/api/cloud_auth.go and cloud_subdomain_login.go: logging in and out. A cookie is none where the
-- request has none of the name; the body of a login is none where it is no valid JSON or too long.
use Prim.Native.String.{len}
use fox_fleet.Prelude.{
  ℕ, String, Option, none, some, Bool, true, false, not, ◌||◌, ite, string_discrete, ltb,
  if◌then◌else◌, Result, ok, err, Error, cause, invalid_credentials,
}
use fox_fleet.Config.{is_empty}
use fox_fleet.Cloud.Rows.{User, Session, Db}
use fox_fleet.Cloud.Users.{authenticate}
use fox_fleet.Cloud.Sessions.{create_session, validate, delete_token}

-- What is answered in cloud mode: a request goes on to the panel or, by a port and with a token, to an
-- instance; the page for an instance that is not there, with its reason; a redirect; an error with
-- its code; a login with its new cookie; a logout, or the login page, with the cookie taken away.
pub data Answer : Type 0 where
  passed_on : Answer
  proxied : ℕ → String → Answer
  unavailable : String → String → Answer
  redirected : String → Answer
  failed : ℕ → String → Answer
  too_many_requests : ℕ → Answer
  logged_in : String → String → Answer
  logged_out : Answer
  login_page : Bool → Answer

pub record LoginRequest : Type 0 where
  pub username : String
  pub password : String

-- The cookie's value, where it has one that is not empty.
abbrev pub cookie_value : Option String → Option String
cookie_value none = none
cookie_value (some v) = if is_empty v then none else some v

abbrev pub same_text : String → String → Bool
same_text s t = ite (string_discrete s t) true false

-- The errors of the outside in a login, and the random text of its token.
pub record LoginOutside : Type 0 where
  pub query_error : Option Error
  pub insert_error : Option Error
  pub random : Result String
  pub now : ℕ
  pub session_ttl : ℕ

abbrev pub auth_failure : Error → Answer
auth_failure invalid_credentials = failed 401 "unauthorized"
auth_failure _ = failed 500 "internal_error"

abbrev pub after_create : String → Result (String × Session) × Db → Answer × Db
after_create username (ok (token, session), db) = (logged_in username token, db)
after_create username (err e, db) = (failed 500 "internal_error", db)

module _ (nocase sha256_hex : String → String) where
  abbrev pub after_authenticate : LoginOutside → String → Result User → Db → Answer × Db
  after_authenticate o username (err e) db = (auth_failure (cause e), db)
  after_authenticate o username (ok u) db =
      after_create username
        (create_session nocase sha256_hex o.insert_error o.random o.now o.session_ttl username db)

  unfoldable pub handle_cloud_login :
      LoginOutside → (String → String → Bool) → Option LoginRequest → Db → Answer × Db
  handle_cloud_login o matches none db = (failed 400 "bad_request", db)
  handle_cloud_login o matches (some req) db =
      if is_empty req.username || is_empty req.password
      then (failed 400 "bad_request", db)
      else if ltb 63 (len req.username)
      then (failed 400 "bad_request", db)
      else if ltb 72 (len req.password)
      then (failed 400 "bad_request", db)
      else after_authenticate o req.username
          (authenticate nocase matches o.query_error req.username req.password db) db

  -- The name is that of the subdomain, where none is given.
  unfoldable pub handle_subdomain_login :
      LoginOutside → (String → String → Bool) → String → Option LoginRequest → Db → Answer × Db
  handle_subdomain_login o matches slug none db = (failed 400 "bad_request", db)
  handle_subdomain_login o matches slug (some req) db =
      let username = if is_empty req.username then slug else req.username in
      if is_empty req.password
      then (failed 400 "bad_request", db)
      else if ltb 72 (len req.password)
      then (failed 400 "bad_request", db)
      else if not (same_text username slug)
      then (failed 403 "forbidden", db)
      else after_authenticate o username
          (authenticate nocase matches o.query_error username req.password db) db

  unfoldable pub handle_cloud_logout : Option Error → Option String → Db → Answer × Db
  handle_cloud_logout fault cookie db = elim (cookie_value cookie) [
    | none ↦ (failed 401 "unauthorized", db)
    | some token ↦ (logged_out, (delete_token nocase sha256_hex fault token db).1)
  ]

  unfoldable pub handle_subdomain_login_page : Option Error → Option String → Db → Answer × Db
  handle_subdomain_login_page fault cookie db = elim (cookie_value cookie) [
    | none ↦ (login_page false, db)
    | some token ↦ (login_page true, (delete_token nocase sha256_hex fault token db).1)
  ]

  -- The user of the session goes on with the request.
  unfoldable pub require_cloud_session :
      Option Error → Option Error → ℕ → Option String → Db → Result String × Db
  require_cloud_session fault delete_fault now cookie db = elim (cookie_value cookie) [
    | none ↦ (err invalid_credentials, db)
    | some token ↦
        let (answer, db') = validate nocase sha256_hex fault delete_fault now token db in
        elim answer [ ok s ↦ (ok (s.user_id), db') | err e ↦ (err invalid_credentials, db') ]
  ]
