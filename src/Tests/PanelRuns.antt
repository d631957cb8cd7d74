-- ===== src/Tests/PanelRuns.antt =====
-- Runs of the handlers of panel/api.
use mathlib.Core.List.{Memᴰ}
use text.Mathlib.TextEquality.{eq_iff}
use fox_fleet.Prelude.{
  ◌*◌, ◌≡◌, refl, String, none, some, [], ◌∷◌, true, string_discrete, arith, ok,
}
use fox_fleet.Prelude.Errors.{cause}
use fox_fleet.Tests.World.{digest, first_row}
use fox_fleet.Tests.CloudRuns.{fold, ada, ada_row, none_yet, none_yet-Inv, one_user, matches}
use fox_fleet.Registry.Rows.{Row}
use fox_fleet.Registry.Rows
use fox_fleet.Registry.Instances
use fox_fleet.Cloud.Rows.{Db, find_user, find_session, refers, same_instance}
use fox_fleet.Cloud.Users.{create_user, new_user, get_user}
use fox_fleet.Cloud.Sessions.{validate, second}
use fox_fleet.Cloud.Invariant.{Inv}
use fox_fleet.Panel.Http.{reply, failure}
use fox_fleet.Panel.Names.{is_valid_slug, valid_slug, all_chars, last_char}
use fox_fleet.Panel.Server.{
  Server, Settings, Job, creating, is_in_flight, clear, provisioner_request,
}
use fox_fleet.Panel.Create.{CreateRequest, check_place, handle_create}
use fox_fleet.Panel.Provision.{ProvisionRequest, handle_provision, handle_check_slug, refused}
use fox_fleet.Panel.Upgrade.{begin_upgrade}
use fox_fleet.Panel.Guard.{Guarded}
use fox_fleet.Panel.Steps.{begin, next, create_step, provision_step, Reach-Guarded}
use fox_fleet.Panel.Refusals.{
  Denied, Unchanged, busy_refused, handle_provision-failure, check_slug_taken,
}
use fox_fleet.Panel.Hosts.{subdomain, route, strip_port, trim_suffix, before_colon, up_to_bracket}
use fox_fleet.Panel.Login.{}
use fox_fleet.Panel.Subdomain.{
  Request, Outside, State, host_dispatcher, handle_subdomain_request, proxy_to_instance,
}
use fox_fleet.Panel.Isolation.{Granted, host_dispatcher-Granted}
use fox_fleet.Panel.Apart.{host_dispatcher_apart}

program : Unit {0}
unfolding handle_create handle_provision handle_check_slug begin_upgrade refused check_place
    is_valid_slug valid_slug all_chars last_char is_in_flight clear create_user new_user find_user
    find_session Rows.find string_discrete Instances.get Instances.list route strip_port trim_suffix
    before_colon up_to_bracket host_dispatcher handle_subdomain_request proxy_to_instance get_user
    validate cause refers same_instance
program = tt

abbrev settings : Settings
settings = record {
  secret = "secret";
  instance_pwd = "pwd";
  image = record { repository = "fox"; digest = "sha256:d1" };
  data_plane_url = "";
  default_skillset = "";
  default_role = "user";
  max_instances = 3;
  domain = "fleet.io";
  has_users = true;
  has_events = true;
}

abbrev idle : Server
idle = record { db = none_yet; in_flight = []; jobs = []; emitted = []; provisions = 0 }

idle-Guarded : Guarded fold idle.db idle.in_flight idle.jobs
idle-Guarded = record { ids = refl; distinct = tt; tables = none_yet-Inv }

abbrev ada_request : ProvisionRequest
ada_request = record { username = ""; password = "password"; slug = "ada" }

abbrev bob_request : CreateRequest
bob_request = record { id = "bob"; skillset_path = ""; role = ""; owner = "" }

abbrev one_job : Server
one_job = (handle_provision fold settings none none none (ok "hash") 5 (some ada_request) idle).1

abbrev two_jobs : Server
two_jobs = (handle_create settings none none (some bob_request) one_job).1

Reach-Guarded_example : Guarded fold two_jobs.db two_jobs.in_flight two_jobs.jobs
Reach-Guarded_example =
    Reach-Guarded fold digest settings {s = idle} {t = two_jobs}
      (next (next begin (provision_step none none none (ok "hash") 5 (some ada_request) idle))
        (create_step none none (some bob_request) one_job))
      idle-Guarded

abbrev ada_job : Job
ada_job = record {
  id = "ada";
  task = creating (provisioner_request settings "ada" "" "user" "") "";
}

abbrev busy : Server
busy = record idle { in_flight = "ada" ∷ []; jobs = ada_job ∷ [] }

busy-Guarded : Guarded fold busy.db busy.in_flight busy.jobs
unfolding program
busy-Guarded = record { ids = refl; distinct = (refl, tt); tables = none_yet-Inv }

busy_refused_example :
    Unchanged busy
      (handle_create settings none none (some (record bob_request { id = "ada" })) busy)
    × (Unchanged busy
          (handle_provision fold settings none none none (ok "hash") 5 (some ada_request) busy)
        × Denied busy (begin_upgrade settings none "ada" (some "ghcr.io/fox") busy))
busy_refused_example =
    busy_refused fold settings ada_job none none none (ok "hash") 5
      (record bob_request { id = "ada" }) ada_request "ghcr.io/fox" busy busy-Guarded
      (Memᴰ.head refl) refl refl

handle_provision-failure_example :
    (handle_provision fold settings none none none
      (ok "hash")
      5
      (some (record ada_request { slug = "fox-1" }))
      idle).1
    ≡ idle
unfolding program
handle_provision-failure_example =
    handle_provision-failure fold settings none none none (ok "hash") 5
      (some (record ada_request { slug = "fox-1" })) idle refl

abbrev with_ada : Server
with_ada = record idle { db = one_user }

check_slug_taken_example :
    (handle_check_slug none "ada" with_ada
      ≡ reply 200 (record { slug = "ada"; available = true; reason = "" }))
    × ((handle_provision fold settings none none none (ok "hash") 5 (some ada_request) with_ada).0
        ≡ failure 409 "user_exists")
unfolding program
check_slug_taken_example =
    check_slug_taken fold settings 5 "hash" ada_request ada_row with_ada refl refl refl refl refl
      refl refl (ground arith) (ground arith)

-- ada has an instance, and two sessions.
abbrev tables : Db
tables = record {
  instances = first_row ∷ [];
  users = record ada_row { user = record ada { instance_id = some "fox-1" } } ∷ [];
  sessions =
      record { token_hash = "sha:t1"; user_id = "ada"; created_at = 7; expires_at = 67 }
      ∷ record { token_hash = "sha:t2"; user_id = "Ada"; created_at = 8; expires_at = 68 }
      ∷ [];
}

tables-Inv : Inv fold tables
unfolding program
tables-Inv = record {
  good = record {
    unique = (tt, tt);
    bound = (refl, tt);
    owned = (ground arith, (ground arith, tt));
  };
  hashes = ((ground (arith, eq_iff "sha:t2" "sha:t1"), tt), (tt, tt));
}

abbrev state : State
state = record { db = tables; login_limiter = none }

abbrev outside : Outside
outside = record {
  validate_error = none;
  delete_error = none;
  user_error = none;
  instance_error = none;
  login = record {
    query_error = none;
    insert_error = none;
    random = ok "t3";
    now = 9 * second;
    session_ttl = 60 * second;
  };
  now = 9 * second;
}

abbrev request : Request
request = record {
  host = "ada.fleet.io:443";
  method = "GET";
  path = "/chat";
  cookie = some "t1";
  body = none;
}

host_dispatcher-Granted_example :
    (slug : String) × ((route "fleet.io" request.host ≡ subdomain slug)
      × Granted fold digest outside slug request tables 9100 "p")
unfolding program
host_dispatcher-Granted_example =
    host_dispatcher-Granted fold digest outside matches "fleet.io" request state 9100 "p" refl

host_dispatcher_apart_example : fold "ada" ≡ fold "Ada"
unfolding program
host_dispatcher_apart_example =
    host_dispatcher_apart fold digest outside outside matches "fleet.io" request
      (record request { host = "Ada.fleet.io"; cookie = some "t2" }) state 9100 "p" "p" "ada" "Ada"
      tables-Inv (tt, tt) refl refl refl refl
