-- ===== src/Panel/Create.antt =====
-- panel/api/handlers.go: the handler that creates an instance in the background.
use fox_fleet.Prelude.{
  ℕ, String, Option, none, some, not, leb, length, ◌&&◌, if◌then◌else◌, Result, ok, err, Error,
}
use fox_fleet.Config.{is_empty}
use fox_fleet.Registry.Instances
use fox_fleet.Cloud.Rows.{Db}
use fox_fleet.Cloud.Users.{set_instance_id}
use fox_fleet.Panel.Http.{Response, reply, failure, bad_request, internal_error, conflict}
use fox_fleet.Panel.Names.{valid_cloud_username, valid_instance_id}
use fox_fleet.Panel.Server.{
  Server, Settings, Job, creating, provisioner_request, is_in_flight, set_in_flight,
  clear_in_flight, spawn, job_done, emit, inc_provisions, with_db,
}

pub record CreateRequest : Type 0 where
  pub id : String
  pub skillset_path : String
  pub role : String
  pub owner : String

pub record CreateResponse : Type 0 where
  pub id : String
  pub status : String

-- What both ways to a new instance check once the guard is set: that there is none of the id, and a
-- free place.
unfoldable pub check_place :
    {A : Type 0}
    → Settings
    → Option Error
    → Option Error
    → String
    → Response A
    → Db
    → Option (Response A)
check_place c get_fault list_fault id taken db = elim (Instances.get get_fault id db.instances) [
  | ok _ ↦ some taken
  | err _ ↦ elim (Instances.list list_fault db.instances) [
    | err _ ↦ some internal_error
    | ok is ↦ if leb c.max_instances (length is) then some (failure 429 "cap_reached") else none
  ]
]

abbrev or_default : String → String → String
or_default s d = if is_empty s then d else s

abbrev pub job_of : Settings → CreateRequest → Job
job_of c b = record {
  id = b.id;
  task =
      creating
        (provisioner_request c b.id (or_default b.skillset_path c.default_skillset)
          (or_default b.role c.default_role) b.owner)
        b.owner;
}

-- The handler once the guard is set.
abbrev pub after_place :
    Settings
    → CreateRequest
    → Option (Response CreateResponse)
    → Server
    → Response CreateResponse × Server
after_place c b (some r) s = (r, clear_in_flight b.id s)
after_place c b none s = (
  reply 201 (record { id = b.id; status = "provisioning" }),
  spawn (job_of c b) (inc_provisions (emit c "provision" b.id s)),
)

unfoldable pub handle_create :
    Settings
    → Option Error
    → Option Error
    → Option CreateRequest
    → Server
    → Response CreateResponse × Server
handle_create c get_fault list_fault none s = (bad_request, s)
handle_create c get_fault list_fault (some b) s =
    if is_empty b.id
    then (bad_request, s)
    else if not (valid_instance_id b.id)
    then (bad_request, s)
    else if not (is_empty b.owner) && not (valid_cloud_username b.owner)
    then (bad_request, s)
    else if is_in_flight b.id s.in_flight
    then (conflict, s)
    else after_place c b (check_place c get_fault list_fault b.id conflict s.db)
        (set_in_flight b.id s)

-- What the goroutine does with the answer of `SetInstanceID`: an error is logged, and emitted.
abbrev pub bound : Settings → String → Result (Unit {0}) × Db → Server → Server
bound c id (ok _, db) s = with_db s db
bound c id (err e, db) s = emit c "error" id (with_db s db)

module _ (nocase : String → String) where
  -- The new instance is given to its owner, where there is one.
  abbrev bind_owner : Settings → Option Error → ℕ → String → String → Server → Server
  bind_owner c fault now owner id s =
      if not (is_empty c.domain) && not (is_empty owner) && c.has_users
      then bound c id (set_instance_id nocase fault now owner id s.db) s
      else s

  -- The end of the goroutine, where `outcome` is that of `Provision`.
  unfoldable pub finish_create :
      Settings → Option Error → Option Error → ℕ → String → String → Server → Server
  finish_create c (some e) fault now owner id s =
      clear_in_flight id (job_done id (emit c "error" id s))
  finish_create c none fault now owner id s =
      clear_in_flight id (job_done id (bind_owner c fault now owner id s))
