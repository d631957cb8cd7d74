-- ===== src/Panel/Subdomain.antt =====
-- panel/api/cloud_dispatch.go, cloud_tls_check.go and cloud_proxy.go: a request for a subdomain, which
-- is the name of a user. What the proxied instance answers, or that it is not reached, is outside.
use Prim.Native.String.{◌++◌}
use fox_fleet.Prelude.{
  ℕ, ◌+◌, ◌/◌, String, Option, none, some, Bool, true, false, not, ◌&&◌, ◌||◌, if◌then◌else◌,
  Result, ok, err, Error,
}
use fox_fleet.Config.{is_empty}
use fox_fleet.RateLimit.{RateLimiter, allow}
use fox_fleet.Registry.Rows.{Instance}
use fox_fleet.Registry.Instances
use fox_fleet.Cloud.Rows.{User, Session, Db}
use fox_fleet.Cloud.Users.{get_user}
use fox_fleet.Cloud.Sessions.{second, validate}
use fox_fleet.Panel.Hosts.{Route, panel, subdomain, invalid, route, trim_suffix, is_invalid_slug}
use fox_fleet.Panel.Login.{
  Answer, passed_on, proxied, unavailable, redirected, failed, too_many_requests, LoginRequest,
  LoginOutside, cookie_value, same_text, handle_subdomain_login, handle_subdomain_login_page,
  handle_cloud_logout,
}

-- What the handlers read of a request.
pub record Request : Type 0 where
  pub host : String
  pub method : String
  pub path : String
  pub cookie : Option String
  pub body : Option LoginRequest

-- The errors of the statements, and the outside of a login.
pub record Outside : Type 0 where
  pub validate_error : Option Error
  pub delete_error : Option Error
  pub user_error : Option Error
  pub instance_error : Option Error
  pub login : LoginOutside
  pub now : ℕ

-- What the handlers share.
pub record State : Type 0 where
  pub db : Db
  pub login_limiter : Option RateLimiter

-- The instance of a user, NULL and the empty text being none.
abbrev pub instance_of : Option String → Option String
instance_of none = none
instance_of (some id) = if is_empty id then none else some id

abbrev pub to_instance : String → Result Instance → Answer
to_instance id (err e) = unavailable id "instance not found"
to_instance id (ok inst) =
    if same_text inst.status "running"
    then proxied inst.port inst.plane_auth_token
    else unavailable id inst.status

abbrev pub of_user : Outside → String → Result User → Db → Answer
of_user o slug (err e) db = unavailable slug "user not found"
of_user o slug (ok u) db = elim (instance_of u.instance_id) [
  | none ↦ unavailable slug "no instance assigned"
  | some id ↦ to_instance id (Instances.get o.instance_error id db.instances)
]

module _ (nocase sha256_hex : String → String) where
  unfoldable pub proxy_to_instance : Outside → String → Db → Answer
  proxy_to_instance o slug db = of_user o slug (get_user nocase o.user_error slug db) db

  -- A login at the subdomain, where the limiter lets it through.
  abbrev pub limited_login :
      Outside → (String → String → Bool) → String → Option LoginRequest → State → Answer × State
  limited_login o matches slug body s = elim s.login_limiter [
    | none ↦
        let (a, db) = handle_subdomain_login nocase sha256_hex o.login matches slug body s.db in
        (a, record s { db = db })
    | some rl ↦
        let (rl', admitted, wait) = allow rl o.now in
        if admitted
        then (let (a, db) =
              handle_subdomain_login nocase sha256_hex o.login matches slug body s.db in
            (a, record { db = db; login_limiter = some rl' }))
        else (too_many_requests (wait / second + 1), record s { login_limiter = some rl' })
  ]

  -- Without a session.
  unfoldable pub login_or_redirect :
      Outside → (String → String → Bool) → String → Request → State → Answer × State
  login_or_redirect o matches slug r s =
      if same_text r.path "/login"
      then (if same_text r.method "GET"
          then (let (a, db) =
                handle_subdomain_login_page nocase sha256_hex o.delete_error r.cookie s.db in
              (a, record s { db = db }))
          else if same_text r.method "POST"
          then limited_login o matches slug r.body s
          else (failed 405 "method_not_allowed", s))
      else (redirected "/login", s)

  abbrev pub after_validate :
      Outside
      → (String → String → Bool)
      → String
      → Request
      → Option RateLimiter
      → Result Session × Db
      → Answer × State
  after_validate o matches slug r rl (err e, db) =
      login_or_redirect o matches slug r (record { db = db; login_limiter = rl })
  after_validate o matches slug r rl (ok sess, db) = (
    if same_text sess.user_id slug then proxy_to_instance o slug db else failed 403 "forbidden",
    record { db = db; login_limiter = rl },
  )

  abbrev pub with_cookie :
      Outside → (String → String → Bool) → String → Request → Option String → State → Answer × State
  with_cookie o matches slug r none s = login_or_redirect o matches slug r s
  with_cookie o matches slug r (some token) s =
      after_validate o matches slug r s.login_limiter
        (validate nocase sha256_hex o.validate_error o.delete_error o.now token s.db)

  unfoldable pub handle_subdomain_request :
      Outside → (String → String → Bool) → String → Request → State → Answer × State
  handle_subdomain_request o matches slug r s =
      if same_text r.path "/logout" && same_text r.method "POST"
      then (let (a, db) = handle_cloud_logout nocase sha256_hex o.delete_error r.cookie s.db in
          (a, record s { db = db }))
      else with_cookie o matches slug r (cookie_value r.cookie) s

  abbrev pub at_route :
      Outside → (String → String → Bool) → Route → Request → State → Answer × State
  at_route o matches panel r s = (passed_on, s)
  at_route o matches invalid r s = (failed 400 "bad_request", s)
  at_route o matches (subdomain slug) r s = handle_subdomain_request o matches slug r s

  unfoldable pub host_dispatcher :
      Outside → (String → String → Bool) → String → Request → State → Answer × State
  host_dispatcher o matches domain r s = at_route o matches (route domain r.host) r s

  abbrev has_instance : Result User → Bool
  has_instance (err e) = false
  has_instance (ok u) = elim (instance_of u.instance_id) [ none ↦ false | some _ ↦ true ]

  -- Whether a certificate may be issued for the domain; `is_loopback` is about the address that asks.
  unfoldable pub handle_tls_check : Bool → Option Error → String → String → Db → Bool
  handle_tls_check is_loopback fault base domain db =
      if not is_loopback || is_empty domain
      then false
      else (elim (trim_suffix ("." ++ base) domain) [
        | none ↦ false
        | some slug ↦
            if is_invalid_slug slug then false else has_instance (get_user nocase fault slug db)
      ])

  -- The root of the panel's own domain.
  unfoldable pub handle_cloud_root : Outside → Option String → Db → Answer × Db
  handle_cloud_root o cookie db = elim (cookie_value cookie) [
    | none ↦ (redirected "/cloud/login", db)
    | some token ↦
        let (answer, db') =
          validate nocase sha256_hex o.validate_error o.delete_error o.now token db in
        (elim answer [ ok _ ↦ redirected "/admin/" | err _ ↦ redirected "/cloud/login" ], db')
  ]
