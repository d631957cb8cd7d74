-- ===== src/Panel/Upgrade.antt =====
-- panel/api/upgrade_handler.go: an instance gets another image. `begin_upgrade` is the handler up to the
-- call of the target, `finish_upgrade` the rest of it.
use Prim.Native.String.{len, find, slice}
use fox_fleet.Prelude.{
  ◌+◌, String, Option, none, some, List, [], ◌∷◌, Bool, true, false, not, ◌&&◌, ite,
  string_discrete, if◌then◌else◌, Result, ok, err, Error, cause, message,
}
use fox_fleet.Config.{is_empty}
use fox_fleet.Plugins.{ImageRef}
use fox_fleet.Registry.Rows.{Instance}
use fox_fleet.Registry.Instances
use fox_fleet.Registry.Instances.{update_image_digest}
use fox_fleet.Cloud.Rows.{}
use fox_fleet.Panel.Http.{Response, reply, failure, bad_request, conflict}
use fox_fleet.Panel.Names.{valid_instance_id, contains}
use fox_fleet.Panel.Instances.{instance_failure}
use fox_fleet.Panel.Server.{
  Server, Settings, upgrading, is_in_flight, set_in_flight, clear_in_flight, spawn, job_done, emit,
}

pub record UpgradeResponse : Type 0 where
  pub id : String
  pub status : String
  pub previous_digest : String
  pub current_digest : String

-- A tag stays in the repository, as in the source.
unfoldable pub parse_image_ref : String → Result ImageRef
parse_image_ref raw =
    let at = find raw "@sha256:" in
    if not (contains raw "/")
    then err (message ("invalid image reference" ∷ raw ∷ "must contain a registry path" ∷ []))
    else if contains raw "://"
    then err (message ("invalid image reference" ∷ raw ∷ "must not contain a scheme" ∷ []))
    else if contains raw "@sha256:"
    then ok (record { repository = slice raw 0 at; digest = slice raw (at + 1) (len raw) })
    else ok (record { repository = raw; digest = "" })

abbrev same_digest : String → String → Bool
same_digest d e = not (is_empty d) && ite (string_discrete d e) true false

-- The response of the handler, or that it goes on to the target.
abbrev pub after_get :
    Settings
    → String
    → ImageRef
    → Result Instance
    → Server
    → Option (Response UpgradeResponse) × Server
after_get c id target (err e) s = (some (instance_failure (cause e)), clear_in_flight id s)
after_get c id target (ok inst) s =
    if same_digest target.digest inst.image_digest
    then (
      some (
          reply 200 (record {
            id = id;
            status = "already_current";
            previous_digest = "";
            current_digest = inst.image_digest;
          })),
      clear_in_flight id s,
    )
    else (
      none,
      spawn (record { id = id; task = upgrading target inst.image_digest })
          (emit c "upgrade_start" id s),
    )

abbrev pub after_parse :
    Settings
    → Option Error
    → String
    → Result ImageRef
    → Server
    → Option (Response UpgradeResponse) × Server
after_parse c fault id (err e) s = (some bad_request, s)
after_parse c fault id (ok target) s =
    if is_in_flight id s.in_flight
    then (some conflict, s)
    else after_get c id target (Instances.get fault id s.db.instances) (set_in_flight id s)

-- `target_image` of the body, none where it is no valid JSON.
unfoldable pub begin_upgrade :
    Settings
    → Option Error
    → String
    → Option String
    → Server
    → Option (Response UpgradeResponse) × Server
begin_upgrade c fault id none s = (some bad_request, s)
begin_upgrade c fault id (some target_image) s =
    if not (valid_instance_id id)
    then (some bad_request, s)
    else if is_empty target_image
    then (some bad_request, s)
    else after_parse c fault id (parse_image_ref target_image) s

-- What is asked of the target: its `Rollout`, and `Rollback` where that fails.
pub data Asked : Type 0 where
  rolls_out : String → ImageRef → Asked
  rolls_back : String → ImageRef → Asked

abbrev pub asked : Option Error → String → ImageRef → String → List Asked
asked none id target previous = rolls_out id target ∷ []
asked (some e) id target previous =
    rolls_out id target
    ∷ rolls_back id (record { repository = target.repository; digest = previous })
    ∷ []

abbrev pub new_digest : ImageRef → String
new_digest target = if is_empty target.digest then "unknown" else target.digest

-- `outcome` is that of `Rollout`; the error of the update of the registry is logged.
unfoldable pub finish_upgrade :
    Settings
    → Option Error
    → Option Error
    → String
    → ImageRef
    → String
    → Server
    → Response UpgradeResponse × Server
finish_upgrade c (some e) fault id target previous s =
    (failure 500 "upgrade_failed", clear_in_flight id (job_done id (emit c "upgrade_failed" id s)))
finish_upgrade c none fault id target previous s =
    let rows = (update_image_digest fault id (new_digest target) s.db.instances).1 in
    (
      reply 200 (record {
        id = id;
        status = "upgraded";
        previous_digest = previous;
        current_digest = new_digest target;
      }),
      clear_in_flight id (
          job_done id
            (emit c "upgrade_complete" id (record s { db = record (s.db) { instances = rows } }))),
    )
