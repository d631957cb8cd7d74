-- ===== src/Tests/Rollouts.antt =====
-- Runs of the rollout, in a world that is its clock: every call is answered at once, and an instance
-- is healthy from the third second on.
use fox_fleet.Prelude.{
  ℕ, ◌+◌, ◌*◌, ◌≡◌, ◌≢◌, refl, Option, none, some, [], ◌∷◌, true, false, ok, Error, foreign, ltb,
  not, if◌then◌else◌, arith, All, string_discrete, dec_le,
}
use fox_fleet.Plugins.{ImageRef, DeploymentPlugin}
use fox_fleet.Machine.{State}
use fox_fleet.Registry.Rows.{order_by_time, find, update}
use fox_fleet.Registry.Instances
use fox_fleet.Rollout.{
  Outside, Settings, Effect, Report, execute, execute_loop, rollout_instance, wait_healthy,
  wait_loop, after_rollout, after_wait, after_update, settings_of, default_health_interval, second,
  out_of_fuel, rolled_out_result, all_rolled_out,
}
use fox_fleet.Rollout.Shape.{Shape}
use fox_fleet.Rollout.Digests.{execute-HasDigest}
use fox_fleet.Rollout.Termination.{Clock, wait_healthy-ends, default_paced}
use fox_fleet.Tests.World.{first_instance, first_row}

program : Unit {0}
unfolding execute execute_loop rollout_instance wait_healthy wait_loop after_rollout after_wait
    after_update settings_of default_health_interval Instances.list Instances.update_image_digest
    find update order_by_time string_discrete dec_le all_rolled_out
program = tt

abbrev fine : ℕ → Option Error × ℕ
fine t = (none, t)

abbrev plugin : DeploymentPlugin ℕ
plugin = record {
  provision = λ _. fine;
  health_check = λ _ t. (
    ok (record { healthy = not (ltb t (3 * second)); ready = true; checks = []; checked_at = 0 }),
    t,
  );
  rollout = λ _ _. fine;
  rollback = λ _ _. fine;
  destroy = λ _. fine;
  restart = λ _. fine;
}

abbrev clock_world : Outside ℕ
clock_world = record {
  plugin = plugin;
  sql_error = fine;
  now = λ t. (t, t);
  cancelled = λ t. (false, t);
  done_first =
      λ deadline wait t. if ltb (t + wait) deadline then (false, t + wait) else (true, deadline);
}

clock : Clock clock_world
clock = record {
  time = λ t. t;
  health_check-le = λ id t. omega arith;
  now-le = λ t. omega arith;
  now_reads = λ t. omega arith;
  timer_first = λ deadline wait t h pos. ground arith;
}

abbrev defaults : Settings
defaults = settings_of 0 none

abbrev new_image : ImageRef
new_image = record { repository = "repo/fox"; digest = "sha256:1" }

abbrev start : State ℕ Effect
start = record { world = 0; rows = first_row ∷ []; trace = [] }

abbrev end : State ℕ Effect
end = (execute clock_world defaults 62 new_image start).1

abbrev done_report : Report
done_report = record {
  target = new_image;
  instances = rolled_out_result new_image first_instance ∷ [];
}

run_time : end.world ≡ 4 * second
unfolding program
run_time = refl

execute-HasDigest_example : All (λ r. r.image_digest ≡ "sha256:1") end.rows
unfolding program
execute-HasDigest_example =
    execute-HasDigest clock_world defaults 62 new_image start end done_report refl refl

wait_healthy-ends_example : (wait_healthy clock_world defaults 62 "fox-1" 0).0 ≢ out_of_fuel
unfolding settings_of
wait_healthy-ends_example =
    wait_healthy-ends clock_world defaults clock (2 * second) (omega arith) default_paced 62 "fox-1"
      0 (omega arith)

-- A world in which the target refuses the image.
abbrev refusing : Outside ℕ
refusing = record clock_world {
  plugin = record plugin { rollout = λ _ _ t. (some (foreign "no image"), t) };
}
