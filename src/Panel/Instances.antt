-- ===== src/Panel/Instances.antt =====
-- panel/api/handlers.go: the handlers of /api/instances and those that read. The health of the poller
-- is the argument `health`; what the deployment target answers, and the errors of the outside, are
-- arguments too.
use Prim.Native.String.{}
use fox_fleet.Prelude.{
  ℕ, ◌-◌, String, Option, none, some, List, [], not, map, if◌then◌else◌, Result, ok, err, Error,
  cause, not_found,
}
use fox_fleet.Plugins.{HealthStatus}
use fox_fleet.Config.{}
use fox_fleet.Registry.Rows.{Instance}
use fox_fleet.Registry.Instances
use fox_fleet.Events.Event.{Event}
use fox_fleet.Events.Store.{Store, by_instance}
use fox_fleet.Cloud.Rows.{Db}
use fox_fleet.Cloud.Users.{}
use fox_fleet.Panel.Http.{
  Response, reply, failure, empty, bad_request, internal_error, not_found_response,
}
use fox_fleet.Panel.Names.{valid_instance_id}
use fox_fleet.Panel.Server.{Server, Settings, emit}
use fox_fleet.Sources.{Json, Source, SourceRow}
use fox_fleet.Sources

pub record InstanceItem : Type 0 where
  pub id : String
  pub status : String
  pub port : ℕ
  pub created_at : ℕ
  pub health : Option HealthStatus

pub record InstanceDetail : Type 0 where
  pub item : InstanceItem
  pub logs : String
  pub skillset_name : String
  pub principal_role : String

abbrev pub item_of : (String → Option HealthStatus) → Instance → InstanceItem
item_of health i = record {
  id = i.id;
  status = i.status;
  port = i.port;
  created_at = i.created_at;
  health = health i.id;
}

unfoldable pub handle_list :
    (String → Option HealthStatus) → Option Error → Db → Response (List InstanceItem)
handle_list health fault db = elim (Instances.list fault db.instances) [
  | err e ↦ internal_error
  | ok is ↦ reply 200 (map (item_of health) is)
]

-- The answer where the registry has not given an instance.
abbrev pub instance_failure : {A : Type 0} → Error → Response A
instance_failure not_found = not_found_response
instance_failure _ = internal_error

abbrev pub destroy_failure : {A : Type 0} → Error → Response A
destroy_failure not_found = not_found_response
destroy_failure _ = failure 500 "destroy_failed"

-- `logs` is what the target gives, cut off at a mebibyte.
abbrev pub detail_of : (String → Option HealthStatus) → Result String → Instance → InstanceDetail
detail_of health logs i = record {
  item = item_of health i;
  logs = elim logs [ ok text ↦ text | err e ↦ "" ];
  skillset_name = i.skillset_name;
  principal_role = i.principal_role;
}

unfoldable pub handle_detail :
    (String → Option HealthStatus)
    → Option Error
    → Result String
    → String
    → Db
    → Response InstanceDetail
handle_detail health fault logs id db =
    if not (valid_instance_id id)
    then bad_request
    else (elim (Instances.get fault id db.instances) [
      | err e ↦ instance_failure (cause e)
      | ok i ↦ reply 200 (detail_of health logs i)
    ])

-- `destroyed` is the outcome of the provisioner's `Destroy`.
unfoldable pub handle_destroy :
    Settings → Option Error → String → Server → Response (Unit {0}) × Server
handle_destroy c destroyed id s =
    if not (valid_instance_id id) then (bad_request, s) else (elim destroyed [
      | none ↦ (empty 204, emit c "destroy" id s)
      | some e ↦ (destroy_failure (cause e), s)
    ])

-- The last day, of a log that has a table.
unfoldable pub handle_health_history :
    Option Error → ℕ → String → Option Store → Response (List Event)
handle_health_history fault now id store =
    if not (valid_instance_id id) then bad_request else (elim store [
      | none ↦ reply 200 []
      | some st ↦ elim (by_instance fault id (now - 86_400) 200 st) [
        | ok es ↦ reply 200 es
        | err e ↦ internal_error
      ]
    ])

unfoldable pub handle_instance_stats : {A : Type 0} → Result A → String → Response A
handle_instance_stats stats id =
    if not (valid_instance_id id)
    then bad_request
    else (elim stats [ ok a ↦ reply 200 a | err e ↦ failure 503 "stats_unavailable" ])

unfoldable pub handle_list_sources :
    Json → Option Error → Option (List SourceRow) → Response (List Source)
handle_list_sources json fault none = reply 200 []
handle_list_sources json fault (some rows) = elim (Sources.list json fault rows) [
  | ok l ↦ reply 200 l
  | err e ↦ internal_error
]

unfoldable pub handle_get_source :
    Json → Option Error → String → Option (List SourceRow) → Response Source
handle_get_source json fault id none = not_found_response
handle_get_source json fault id (some rows) = elim (Sources.get json fault id rows) [
  | ok s ↦ reply 200 s
  | err e ↦ instance_failure (cause e)
]
