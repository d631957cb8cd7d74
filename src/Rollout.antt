-- ===== src/Rollout.antt =====
-- rollout/rollout.go: a new image is brought to the instances one after another.
-- `Outside` is what the orchestrator uses of the world `W`: the deployment target, the SQL engine,
-- the clock, and the contexts. Times are in nanoseconds. The log is not modelled.
pub mod Shape
pub mod Digests
pub mod Undo
pub mod Termination
use fox_fleet.Prelude.{
  ℕ, zero, suc, ◌+◌, ◌-◌, ◌*◌, ◌==◌, String, Option, none, some, List, [], ◌∷◌, Bool, true, false,
  map, ltb, if◌then◌else◌, Result, ok, err, Error, wrap,
}
use fox_fleet.Plugins.{ImageRef, HealthStatus, DeploymentPlugin}
use fox_fleet.Registry.Rows.{Instance, Row}
use fox_fleet.Registry.Instances
use fox_fleet.Machine.{State, act, note, ignoring, reads, writes}

pub data ResultStatus : Type 0 where
  rolled_out rolled_back skipped : ResultStatus

-- How the wait for an instance ends; a time is what has elapsed.
pub data Wait : Type 0 where
  healthy : Wait
  timed_out : ℕ → Wait
  out_of_fuel : Wait

abbrev pub is_wait_healthy : Wait → Bool
is_wait_healthy healthy = true
is_wait_healthy _ = false

-- The text of `error`, by what it is made of.
pub data Reason : Type 0 where
  no_error : Reason
  rollout_error : Error → Reason
  health_failed : Wait → Reason
  health_and_rollback_failed : Wait → Error → Reason
  registry_update : Error → Reason
  aborted : Reason

pub record InstanceResult : Type 0 where
  pub id : String
  pub status : ResultStatus
  pub previous : ImageRef
  pub error : Reason

pub record Report : Type 0 where
  pub target : ImageRef
  pub instances : List InstanceResult

abbrev pub is_rolled_out : ResultStatus → Bool
is_rolled_out rolled_out = true
is_rolled_out _ = false

-- `OK`, over the results of a report.
unfoldable pub all_rolled_out : List InstanceResult → Bool
all_rolled_out [] = true
all_rolled_out (r ∷ rs) =
    let rest = all_rolled_out rs in if is_rolled_out r.status then rest else false

pub record Settings : Type 0 where
  pub health_timeout : ℕ
  pub health_interval : ℕ → ℕ

abbrev pub second : ℕ
second = 1_000_000_000

abbrev pub default_health_timeout : ℕ
default_health_timeout = 120 * second

unfoldable pub default_health_interval : ℕ → ℕ
default_health_interval elapsed = if ltb elapsed (30 * second) then 2 * second else 5 * second

-- The defaults of `New`; no interval is `none`.
unfoldable pub settings_of : ℕ → Option (ℕ → ℕ) → Settings
settings_of timeout interval = record {
  health_timeout = if timeout == 0 then default_health_timeout else timeout;
  health_interval = elim interval [ none ↦ default_health_interval | some f ↦ f ];
}

pub record Outside (W : Type 0) : Type 0 where
  pub plugin : DeploymentPlugin W
  pub sql_error : W → Option Error × W
  pub now : W → ℕ × W
  -- `ctx.Err() != nil`
  pub cancelled : W → Bool × W
  -- `select` between a context that ends at the first time, if not before, and a timer of the
  -- second: whether the context came first
  pub done_first : ℕ → ℕ → W → Bool × W

-- What the target is asked for, newest first in a trace.
pub data Effect : Type 0 where
  rolls_out : String → ImageRef → Effect
  rolls_back : String → ImageRef → Effect

abbrev pub is_healthy : Result HealthStatus → Bool
is_healthy (ok h) = h.healthy
is_healthy (err e) = false

-- The image that an instance had, in the repository of the target.
abbrev pub previous_of : ImageRef → Instance → ImageRef
previous_of target inst = record { repository = target.repository; digest = inst.image_digest }

abbrev pub skipped_result : ImageRef → Instance → InstanceResult
skipped_result target inst = record {
  id = inst.id;
  status = skipped;
  previous = previous_of target inst;
  error = aborted;
}

abbrev pub rolled_out_result : ImageRef → Instance → InstanceResult
rolled_out_result target inst = record {
  id = inst.id;
  status = rolled_out;
  previous = previous_of target inst;
  error = no_error;
}

abbrev pub rolled_back_result : ImageRef → Instance → Reason → InstanceResult
rolled_back_result target inst reason = record {
  id = inst.id;
  status = rolled_back;
  previous = previous_of target inst;
  error = reason;
}

module _ {W : Type 0} (o : Outside W) (c : Settings) where
  -- The `for` of `waitHealthy`, on fuel.
  unfoldable pub wait_loop : ℕ → ℕ → ℕ → String → W → Wait × W
  wait_loop zero deadline start id w = (out_of_fuel, w)
  wait_loop (suc fuel) deadline start id w =
      let (status, w1) = o.plugin.health_check id w in
      let (t, w2) = o.now w1 in
      let (done, w3) = o.done_first deadline (c.health_interval (t - start)) w2 in
      let rest = wait_loop fuel deadline start id w3 in
      if is_healthy status
      then (healthy, w1)
      else if done
      then (timed_out (t - start), w3)
      else rest

  unfoldable pub wait_healthy : ℕ → String → W → Wait × W
  wait_healthy fuel id w =
      let (created, w1) = o.now w in
      let (start, w2) = o.now w1 in wait_loop fuel (created + c.health_timeout) start id w2

  -- `Rollback`, noted and asked for.
  abbrev pub roll_back : String → ImageRef → State W Effect → Result (Unit {0}) × State W Effect
  roll_back id previous s =
      act (o.plugin.rollback id previous) (note {E = Effect} (rolls_back id previous) s).1

  -- After `UpdateImageDigest`.
  unfoldable pub after_update :
      Instance → ImageRef → Result (Unit {0}) → State W Effect → InstanceResult × State W Effect
  after_update inst target (ok _) s = (rolled_out_result target inst, s)
  after_update inst target (err e) s = (
    rolled_back_result target inst (registry_update e),
    (ignoring (roll_back inst.id (previous_of target inst)) s).1,
  )

  -- After the rollback of an instance that did not get healthy.
  unfoldable pub after_rollback : Wait → Instance → ImageRef → Result (Unit {0}) → InstanceResult
  after_rollback w inst target (ok _) = rolled_back_result target inst (health_failed w)
  after_rollback w inst target (err e) =
      rolled_back_result target inst (health_and_rollback_failed w e)

  unfoldable pub after_wait :
      Wait → Instance → ImageRef → State W Effect → InstanceResult × State W Effect
  after_wait w inst target s =
      let update = λ (fault : Option Error) (rows : List Row).
        Instances.update_image_digest fault inst.id target.digest rows in
      let (updated, s1) = writes o.sql_error update s in
      let (undone, s2) = roll_back inst.id (previous_of target inst) s in
      if is_wait_healthy w
      then after_update inst target updated s1
      else (after_rollback w inst target undone, s2)

  -- After `Rollout`.
  unfoldable pub after_rollout :
      ℕ → Instance → ImageRef → Result (Unit {0}) → State W Effect → InstanceResult × State W Effect
  after_rollout fuel inst target (err e) s = (rolled_back_result target inst (rollout_error e), s)
  after_rollout fuel inst target (ok _) s =
      let (w, world) = wait_healthy fuel inst.id s.world in
      after_wait w inst target (record s { world = world })

  unfoldable pub rollout_instance :
      ℕ → Instance → ImageRef → State W Effect → InstanceResult × State W Effect
  rollout_instance fuel inst target s =
      let (answer, s1) =
        act (o.plugin.rollout inst.id target) (note {E = Effect} (rolls_out inst.id target) s).1 in
      after_rollout fuel inst target answer s1

  -- The loop of `Execute` over the instances: the results of this round and the rest.
  unfoldable pub execute_loop :
      ℕ → ImageRef → List Instance → State W Effect → List InstanceResult × State W Effect
  execute_loop fuel target [] s = ([], s)
  execute_loop fuel target (inst ∷ insts) s =
      let (stop, world) = o.cancelled s.world in
      let s1 : State W Effect = record s { world = world } in
      let (result, s2) = rollout_instance fuel inst target s1 in
      let (results, s3) = execute_loop fuel target insts s2 in
      if stop
      then (map (skipped_result target) (inst ∷ insts), s1)
      else if is_rolled_out result.status
      then (result ∷ results, s3)
      else (result ∷ map (skipped_result target) insts, s2)

  unfoldable pub execute : ℕ → ImageRef → State W Effect → Result Report × State W Effect
  execute fuel target s =
      let (answer, s1) = reads o.sql_error Instances.list s in
      elim answer [
        | err e ↦ (err (wrap ("rollout: list instances" ∷ []) e), s1)
        | ok instances ↦
            let (results, s2) = execute_loop fuel target instances s1 in
            (ok (record { target = target; instances = results }), s2)
      ]
