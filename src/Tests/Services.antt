-- ===== src/Tests/Services.antt =====
-- Runs of the provisioner.
use fox_fleet.Prelude.{
  ◌≡◌, ◌≢◌, ◌⊎◌, refl, some, none, foreign, map, [], ◌∷◌, true, false, ok, err, string_discrete,
  ℕ_discrete, arith, dec_le,
}
use fox_fleet.Prelude.Int.{wrap_int}
use fox_fleet.Tests.World.{Script, outside, settings, request, first_row}
use fox_fleet.Config.{validate_secrets, cloud_env_vars}
use fox_fleet.Machine.{State}
use fox_fleet.Registry.Rows.{Row, find, update, delete_where, port_taken, order_by_time}
use fox_fleet.Registry.Instances
use fox_fleet.Registry.Instances.{create, upsert, hash_of}
use fox_fleet.Provisioner.Defs.{
  Effect, allocate_port, contains, has_id, scan_ports, scan_length, removes_data, destroys,
  provisions,
}
use fox_fleet.Provisioner.Service.{
  provision, reserve, deploy, rollback, copy_skillset, skillset_name, retry_update_status,
  Reservation, provision_request,
}
use fox_fleet.Provisioner.Outcome.{provision-ok, provision-error, Succeeds, Fails}
use fox_fleet.Provisioner.Deploy.{deploy_error-trace, injected_path}
use fox_fleet.Provisioner.Ports.{allocate_port-found}

program : Unit {0}
unfolding provision reserve deploy rollback copy_skillset skillset_name retry_update_status
    allocate_port scan_length wrap_int contains has_id scan_ports create upsert hash_of
    Instances.list Instances.used_ports Instances.delete Instances.update_status find update
    delete_where port_taken order_by_time validate_secrets cloud_env_vars string_discrete ℕ_discrete
    dec_le
program = tt

abbrev before : State Script Effect
before = record {
  world = record { faults = []; answers = []; tokens = 0; target_up = true };
  rows = first_row ∷ [];
  trace = [];
}

-- The target refuses the container.
abbrev doomed : State Script Effect
doomed = record before {
  world = record { faults = []; answers = []; tokens = 0; target_up = false };
}

run_port : (elim (provision outside settings request before).0 [ ok p ↦ p.port | err _ ↦ 0 ]) ≡ 9101
unfolding program
run_port = refl

abbrev row_of : Row
row_of = record {
  inst = record {
    id = "fox-2";
    image_digest = "sha256:1";
    port = 9101;
    data_dir = "/srv/x";
    status = "running";
    created_at = 1000;
    skillset_name = "";
    principal_role = "user";
    query_token = "token-a";
    plane_auth_token = "token-b";
    instance_password = "token-c";
  };
  query_token_hash = "sha:token-a";
}

run_rows : (provision outside settings request before).1.rows ≡ first_row ∷ row_of ∷ []
unfolding program
run_rows = refl

provision-ok_example :
    Succeeds outside settings request before.rows
      (provision outside settings request before).1.rows
      (record {
        id = "fox-2";
        port = 9101;
        data_dir = "/srv/x";
        status = "running";
        created_at = 1000;
      })
unfolding program
provision-ok_example = provision-ok outside settings request before _ _ refl

doomed_rows : (provision outside settings request doomed).1.rows ≡ first_row ∷ []
unfolding program
doomed_rows = refl

-- The target refuses the container, and the SQL engine the removal of the reservation.
abbrev stuck : State Script Effect
stuck = record before {
  world = record {
    faults = none ∷ none ∷ none ∷ some (foreign "disk full") ∷ [];
    answers = [];
    tokens = 0;
    target_up = false;
  };
}

stuck_end :
    (provision outside settings request stuck).1.world.answers
    ≡ some (foreign "disk full") ∷ none ∷ none ∷ none ∷ []
unfolding program
stuck_end = refl

stuck_rows :
    map (λ r. r.status) (provision outside settings request stuck).1.rows
    ≡ "running" ∷ "provisioning" ∷ []
unfolding program
stuck_rows = refl

provision-error_example :
    Fails outside settings request stuck.rows
      (provision outside settings request stuck).1.rows
      stuck.world
      (provision outside settings request stuck).1.world
unfolding program
provision-error_example = provision-error outside settings request stuck _ _ refl

allocate_port-found_example : allocate_port settings (9100 ∷ 9101 ∷ []) ≢ 0
allocate_port-found_example =
    allocate_port-found settings (9100 ∷ 9101 ∷ []) (omega arith) (omega arith) (omega arith)

abbrev reservation : Reservation
reservation = record { now = 1000; inst = row_of.inst }

-- The state that the critical section leaves.
abbrev reserved_state : State Script Effect
reserved_state = record doomed { rows = first_row ∷ row_of ∷ [] }

deploy_error-trace_example :
    let r = reservation in
    let s' = (deploy outside settings request r reserved_state).1 in
    (s'.trace ≡ removes_data r.inst.data_dir ∷ [])
    ⊎ (s'.trace
        ≡ removes_data r.inst.data_dir
          ∷ destroys "fox-2"
          ∷ provisions (
              provision_request outside settings request r (injected_path outside settings request))
          ∷ [])
unfolding program
deploy_error-trace_example =
    deploy_error-trace outside settings request reservation reserved_state _ _ refl
