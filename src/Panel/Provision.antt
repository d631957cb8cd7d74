-- ===== src/Panel/Provision.antt =====
-- panel/api/provision_handler.go: a user and an instance of one name, in one request.
use Prim.Native.String.{len}
use fox_fleet.Prelude.{
  ℕ, String, Option, none, some, List, [], ◌∷◌, Bool, true, false, not, ltb, ◌&&◌, ite,
  string_discrete, if◌then◌else◌, Result, ok, err, Error, cause, user_exists, not_found,
}
use fox_fleet.Config.{is_empty}
use fox_fleet.Registry.Instances
use fox_fleet.Cloud.Rows.{User, Db}
use fox_fleet.Cloud.Users
use fox_fleet.Cloud.Users.{create_user, set_instance_id}
use fox_fleet.Panel.Http.{Response, reply, failure, bad_request, internal_error, conflict}
use fox_fleet.Panel.Names.{is_valid_slug}
use fox_fleet.Panel.Server.{
  Server, Settings, Job, provisioning, provisioner_request, is_in_flight, set_in_flight,
  clear_in_flight, spawn, job_done, emit, inc_provisions, with_db,
}
use fox_fleet.Panel.Create.{check_place, bound}

abbrev pub reserved_slugs : List String
reserved_slugs =
    "admin" ∷ "api" ∷ "www" ∷ "mail" ∷ "login" ∷ "logout" ∷ "cloud" ∷ "fleet" ∷ "fox" ∷ "static"
    ∷ "assets" ∷ "healthz" ∷ "robots" ∷ []

pub record ProvisionRequest : Type 0 where
  pub username : String
  pub password : String
  pub slug : String

pub record ProvisionResponse : Type 0 where
  pub instance_id : String
  pub username : String
  pub status : String
  pub created_at : ℕ

abbrev same_text : String → String → Bool
same_text s t = ite (string_discrete s t) true false

abbrev pub create_failure : {A : Type 0} → Error → Response A
create_failure user_exists = failure 409 "user_exists"
create_failure _ = internal_error

-- What the request itself is refused for, before anything is looked up.
unfoldable pub refused : {A : Type 0} → ProvisionRequest → Option (Response A)
refused req =
    if is_empty req.slug
    then some bad_request
    else if not (is_valid_slug req.slug)
    then some bad_request
    else if is_in_flight req.slug reserved_slugs
    then some (failure 409 "slug_reserved")
    else if not (is_empty req.username) && not (same_text req.username req.slug)
    then some bad_request
    else if ltb (len req.password) 8
    then some bad_request
    else if ltb 72 (len req.password)
    then some bad_request
    else none

abbrev pub job_of : Settings → String → Job
job_of c slug = record {
  id = slug;
  task = provisioning (provisioner_request c slug c.default_skillset c.default_role slug) slug;
}

module _ (nocase : String → String) where
  -- The handler once the user is created, or is not.
  abbrev pub after_user :
      Settings → String → Result User × Db → Server → Response ProvisionResponse × Server
  after_user c slug (err e, db) s = (create_failure (cause e), clear_in_flight slug (with_db s db))
  after_user c slug (ok u, db) s = (
    reply 201 (record {
      instance_id = slug;
      username = slug;
      status = "provisioning";
      created_at = u.created_at;
    }),
    spawn (job_of c slug) (inc_provisions (emit c "provision" slug (with_db s db))),
  )

  -- The handler once the guard is set.
  abbrev pub after_place :
      Settings
      → Option Error
      → Result String
      → ℕ
      → ProvisionRequest
      → Option (Response ProvisionResponse)
      → Server
      → Response ProvisionResponse × Server
  after_place c fault hashed now req (some r) s = (r, clear_in_flight req.slug s)
  after_place c fault hashed now req none s =
      after_user c req.slug (create_user nocase fault hashed now req.slug req.password s.db) s

  -- The handler once the request is found to be in order.
  abbrev pub guarded :
      Settings
      → Option Error
      → Option Error
      → Option Error
      → Result String
      → ℕ
      → ProvisionRequest
      → Server
      → Response ProvisionResponse × Server
  guarded c get_fault list_fault fault hashed now req s =
      let taken = failure 409 "slug_taken" in
      if is_in_flight req.slug s.in_flight
      then (conflict, s)
      else after_place c fault hashed now req
          (check_place c get_fault list_fault req.slug taken s.db) (set_in_flight req.slug s)

  unfoldable pub handle_provision :
      Settings
      → Option Error
      → Option Error
      → Option Error
      → Result String
      → ℕ
      → Option ProvisionRequest
      → Server
      → Response ProvisionResponse × Server
  handle_provision c get_fault list_fault fault hashed now none s = (bad_request, s)
  handle_provision c get_fault list_fault fault hashed now (some req) s = elim (refused req) [
    | some r ↦ (r, s)
    | none ↦ guarded c get_fault list_fault fault hashed now req s
  ]

  -- Its error is logged.
  abbrev pub rollback_user : Option Error → String → Server → Server
  rollback_user fault username s = with_db s ((Users.delete nocase fault username s.db).1)

  -- The end of the goroutine, where `outcome` is that of `Provision`: it has failed, and the user goes
  -- again, or the user gets the instance.
  unfoldable pub finish_provision :
      Settings → Option Error → Option Error → ℕ → String → Server → Server
  finish_provision c (some e) fault now slug s =
      clear_in_flight slug (job_done slug (rollback_user fault slug (emit c "error" slug s)))
  finish_provision c none fault now slug s =
      clear_in_flight slug
        (job_done slug (bound c slug (set_instance_id nocase fault now slug slug s.db) s))

pub record SlugCheckResponse : Type 0 where
  pub slug : String
  pub available : Bool
  pub reason : String

abbrev pub unavailable : String → String → Response SlugCheckResponse
unavailable slug reason = reply 200 (record { slug = slug; available = false; reason = reason })

abbrev pub check_failure : String → Error → Response SlugCheckResponse
check_failure slug not_found = reply 200 (record { slug = slug; available = true; reason = "" })
check_failure slug _ = internal_error

unfoldable pub handle_check_slug : Option Error → String → Server → Response SlugCheckResponse
handle_check_slug fault slug s =
    if not (is_valid_slug slug)
    then unavailable slug "invalid DNS label"
    else if is_in_flight slug reserved_slugs
    then unavailable slug "reserved"
    else if is_in_flight slug s.in_flight
    then unavailable slug "currently being provisioned"
    else (elim (Instances.get fault slug s.db.instances) [
      | ok _ ↦ unavailable slug "already in use"
      | err e ↦ check_failure slug (cause e)
    ])
