-- ===== src/Panel/Isolation.antt =====
-- Whose instance a request for a subdomain gets to.
use fox_fleet.Prelude.{
  ℕ, ◌*◌, ◌≤◌, ◌≡◌, refl, subst, String, Option, none, some, Bool, true, false, ◌&&◌,
  string_discrete, arith, Bool-cases, Option-cases, inl, inr, if◌then◌else◌, Result, ok, err, Error,
}
use fox_fleet.Config.{is_empty}
use fox_fleet.RateLimit.{allow}
use fox_fleet.Registry.Rows.{Instance, Row}
use fox_fleet.Registry.Rows
use fox_fleet.Registry.Instances
use fox_fleet.Cloud.Rows.{User, UserRow, Session, Db, find_session, find_user}
use fox_fleet.Cloud.Users.{get_user, authenticate}
use fox_fleet.Cloud.Sessions.{second, validate}
use fox_fleet.Cloud.Unique.{}
use fox_fleet.Cloud.Invariant.{}
use fox_fleet.Cloud.Access.{validate-found}
use fox_fleet.Panel.Hosts.{Route, panel, subdomain, invalid, route}
use fox_fleet.Panel.Login.{
  Answer, proxied, LoginRequest, LoginOutside, cookie_value, same_text, handle_subdomain_login,
  handle_subdomain_login_page, handle_cloud_logout, after_authenticate, after_create,
}
use fox_fleet.Panel.Subdomain.{
  Request, Outside, State, to_instance, proxy_to_instance, limited_login, login_or_redirect,
  after_validate, with_cookie, handle_subdomain_request, at_route, host_dispatcher,
}

-- The instance at the other end: it is the user's, and it is running.
pub record Own (nocase : String → String) (slug : String) (db : Db) (port : ℕ) (token : String)
    : Type 0 where
  pub row : UserRow
  pub id : String
  pub inst : Row
  pub user : find_user nocase (nocase slug) db.users ≡ some row
  pub assigned : row.instance_id ≡ some id
  pub there : Rows.find id db.instances ≡ some inst
  pub running : inst.status ≡ "running"
  pub port_is : inst.port ≡ port
  pub token_is : inst.plane_auth_token ≡ token

-- The session of the request: it is the user's, and it has not expired.
pub record LoggedIn (sha256_hex : String → String) (slug : String) (now : ℕ)
    (cookie : Option String) (db : Db) : Type 0 where
  pub token : String
  pub session : Session
  pub cookie_is : cookie ≡ some token
  pub found : find_session (sha256_hex token) db.sessions ≡ some session
  pub in_time : now ≤ session.expires_at * second
  pub own : session.user_id ≡ slug

abbrev is_proxied : Answer → Bool
is_proxied (proxied port token) = true
is_proxied _ = false

module _ (nocase sha256_hex : String → String) where
  to_instance-Own :
      (o : Outside) (slug id : String) (db : Db) (u : UserRow) (port : ℕ) (token : String)
      → find_user nocase (nocase slug) db.users ≡ some u
      → u.instance_id ≡ some id
      → to_instance id (Instances.get o.instance_error id db.instances) ≡ proxied port token
      → Own nocase slug db port token
  unfolding Instances.get
  to_instance-Own o slug id db u port token f a h = elim (Option-cases o.instance_error) [
    | inr (e, p) ↦ absurd (ground arith)
    | inl p ↦ elim (Option-cases (Rows.find id db.instances)) [
      | inl q ↦ absurd (ground arith)
      | inr (x, q) ↦ record {
        row = u;
        id = id;
        inst = x;
        user = f;
        assigned = a;
        there = q;
        running = ground arith;
        port_is = ground arith;
        token_is = ground arith;
      }
    ]
  ]

  proxy_to_instance-Own :
      (o : Outside) (slug : String) (db : Db) (port : ℕ) (token : String)
      → proxy_to_instance nocase sha256_hex o slug db ≡ proxied port token
      → Own nocase slug db port token
  unfolding proxy_to_instance get_user
  proxy_to_instance-Own o slug db port token h = elim (Option-cases o.user_error) [
    | inr (e, p) ↦ absurd (ground arith)
    | inl p ↦ elim (Option-cases (find_user nocase (nocase slug) db.users)) [
      | inl q ↦ absurd (ground arith)
      | inr (u, q) ↦ elim (Option-cases u.instance_id) [
        | inl a ↦ absurd (ground arith)
        | inr (id, a) ↦ to_instance-Own o slug id db u port token q a (ground arith)
      ]
    ]
  ]

  -- No answer of the handlers that log in or out lets a request through.
  abbrev Not : {S : Type 0} → Answer × S → Type 0
  Not r = is_proxied (r.0) ≡ false

  after_create-Not :
      (name : String) (r : Result (String × Session) × Db) → Not (after_create name r)
  after_create-Not name (ok (token, session), db) = refl
  after_create-Not name (err e, db) = refl

  after_authenticate-Not :
      (o : LoginOutside) (name : String) (r : Result User) (db : Db)
      → Not (after_authenticate nocase sha256_hex o name r db)
  after_authenticate-Not o name (ok u) db = after_create-Not name _
  after_authenticate-Not o name (err e) db = ground arith

  subdomain_login-Not :
      (o : LoginOutside) (matches : String → String → Bool) (slug : String)
      (body : Option LoginRequest) (db : Db)
      → Not (handle_subdomain_login nocase sha256_hex o matches slug body db)
  unfolding handle_subdomain_login
  subdomain_login-Not o matches slug none db = refl
  subdomain_login-Not o matches slug (some req) db =
      let name = if is_empty req.username then slug else req.username in
      ground (
        arith,
        after_authenticate-Not o name
            (authenticate nocase matches o.query_error name req.password db) db,
      )

  login_page-Not :
      (fault : Option Error) (cookie : Option String) (db : Db)
      → Not (handle_subdomain_login_page nocase sha256_hex fault cookie db)
  unfolding handle_subdomain_login_page
  login_page-Not fault cookie db = ground arith

  logout-Not :
      (fault : Option Error) (cookie : Option String) (db : Db)
      → Not (handle_cloud_logout nocase sha256_hex fault cookie db)
  unfolding handle_cloud_logout
  logout-Not fault cookie db = ground arith

  limited_login-Not :
      (o : Outside) (matches : String → String → Bool) (slug : String) (body : Option LoginRequest)
      (s : State)
      → Not (limited_login nocase sha256_hex o matches slug body s)
  limited_login-Not o matches slug body s =
      let q = subdomain_login-Not o.login matches slug body s.db in
      elim (Option-cases s.login_limiter) [
        | inl p ↦ rw p q
        | inr (rl, p) ↦ elim (Bool-cases ((allow rl o.now).1)) [
          | inl a ↦ rw (p, a) q
          | inr a ↦ rw (p, a) refl
        ]
      ]

  login_or_redirect-Not :
      (o : Outside) (matches : String → String → Bool) (slug : String) (r : Request) (s : State)
      → Not (login_or_redirect nocase sha256_hex o matches slug r s)
  unfolding login_or_redirect
  login_or_redirect-Not o matches slug r s = ground (
    arith,
    limited_login-Not o matches slug r.body s,
    login_page-Not o.delete_error r.cookie s.db,
  )

  proxied-not :
      (a : Answer) (port : ℕ) (token : String) → a ≡ proxied port token → is_proxied a ≡ false → ⊥
  proxied-not a port token p q = ground arith

  -- What it takes for a request to get to an instance.
  abbrev pub Granted : Outside → String → Request → Db → ℕ → String → Type 0
  Granted o slug r db port token =
      LoggedIn sha256_hex slug o.now (cookie_value r.cookie) db × Own nocase slug db port token

  after_validate-Granted :
      (o : Outside) (matches : String → String → Bool) (slug : String) (r : Request) (t : String)
      (v : Result Session × Db) (s : State) (port : ℕ) (token : String)
      → validate nocase sha256_hex o.validate_error o.delete_error o.now t s.db ≡ v
      → (after_validate nocase sha256_hex o matches slug r s.login_limiter v).0 ≡ proxied port token
      → LoggedIn sha256_hex slug o.now (some t) s.db × Own nocase slug s.db port token
  after_validate-Granted o matches slug r t (err e, db) s port token v h =
      absurd (proxied-not _ port token h (login_or_redirect-Not o matches slug r _))
  after_validate-Granted o matches slug r t (ok x, db) s port token v h =
      let q =
        validate-found nocase sha256_hex o.validate_error o.delete_error o.now t s.db db x v in
      elim (string_discrete x.user_id slug) [
        | no p ↦ absurd (ground arith)
        | yes p ↦
            let there : proxy_to_instance nocase sha256_hex o slug db ≡ proxied port token =
              ground arith in
            let mine = proxy_to_instance-Own o slug db port token there in
            (
              record {
                token = t;
                session = x;
                cookie_is = refl;
                found = q.0;
                in_time = q.1.0;
                own = p;
              },
              subst (λ d. Own nocase slug d port token) (q.1.1) mine,
            )
      ]

  with_cookie-Granted :
      (o : Outside) (matches : String → String → Bool) (slug : String) (r : Request)
      (cookie : Option String) (s : State) (port : ℕ) (token : String)
      → (with_cookie nocase sha256_hex o matches slug r cookie s).0 ≡ proxied port token
      → LoggedIn sha256_hex slug o.now cookie s.db × Own nocase slug s.db port token
  with_cookie-Granted o matches slug r none s port token h =
      absurd (proxied-not _ port token h (login_or_redirect-Not o matches slug r s))
  with_cookie-Granted o matches slug r (some t) s port token h =
      after_validate-Granted o matches slug r t _ s port token refl h

  request-Granted :
      (o : Outside) (matches : String → String → Bool) (slug : String) (r : Request) (s : State)
      (port : ℕ) (token : String)
      → (handle_subdomain_request nocase sha256_hex o matches slug r s).0 ≡ proxied port token
      → Granted o slug r s.db port token
  unfolding handle_subdomain_request
  request-Granted o matches slug r s port token h =
      let logout = logout-Not o.delete_error r.cookie s.db in
      elim (Bool-cases (same_text r.path "/logout" && same_text r.method "POST")) [
        | inl p ↦ absurd (ground arith)
        | inr p ↦
            with_cookie-Granted o matches slug r (cookie_value r.cookie) s port token (ground arith)
      ]

  at_route-Granted :
      (o : Outside) (matches : String → String → Bool) (to : Route) (r : Request) (s : State)
      (port : ℕ) (token : String)
      → (at_route nocase sha256_hex o matches to r s).0 ≡ proxied port token
      → (slug : String) × ((to ≡ subdomain slug) × Granted o slug r s.db port token)
  at_route-Granted o matches panel r s port token h = absurd (ground arith)
  at_route-Granted o matches invalid r s port token h = absurd (ground arith)
  at_route-Granted o matches (subdomain slug) r s port token h =
      (slug, (refl, request-Granted o matches slug r s port token h))

  -- A request that gets to an instance is for the subdomain of a user: it has the token of a session of
  -- that user that has not expired, and the instance is that user's, is running, and is at the port
  -- and behind the token that the request is sent on with.
  pub host_dispatcher-Granted :
      (o : Outside) (matches : String → String → Bool) (domain : String) (r : Request) (s : State)
      (port : ℕ) (token : String)
      → (host_dispatcher nocase sha256_hex o matches domain r s).0 ≡ proxied port token
      → (slug : String) × ((route domain r.host ≡ subdomain slug)
          × Granted o slug r s.db port token)
  unfolding host_dispatcher
  host_dispatcher-Granted o matches domain r s port token h =
      at_route-Granted o matches (route domain r.host) r s port token h
