-- ===== src/Poller.antt =====
-- panel/api/poller.go: the health of the instances, and the restart of those that stay unhealthy.
-- `Outside` is what a poll uses of the world `W`. The checks of one poll run in goroutines of their
-- own; each writes its own slot of the results, and they are taken in the order of the slots. The
-- log is not modelled. Times are in nanoseconds.
pub mod Restarts
use Prim.Native.String.{◌++◌}
use fox_fleet.Prelude.{
  ℕ, ◌+◌, ◌-◌, String, Option, none, some, List, [], ◌∷◌, Bool, true, false, not, ite,
  string_discrete, ltb, if◌then◌else◌, Result, ok, err, Error,
}
use fox_fleet.Plugins.{HealthStatus, DeploymentPlugin}
use fox_fleet.Registry.Rows.{Instance, Row}
use fox_fleet.Registry.Instances

pub record AutoRestartConfig : Type 0 where
  pub enabled : Bool
  pub threshold : ℕ
  pub cooldown : ℕ

-- A map from ids is the list of its entries, the newest first; `delete` takes every entry of an id.
unfoldable pub lookup : {A : Type 0} → String → List (String × A) → Option A
lookup id [] = none
lookup id ((k, a) ∷ m) = ite (string_discrete k id) (some a) (lookup id m)

unfoldable pub delete : {A : Type 0} → String → List (String × A) → List (String × A)
delete id [] = []
delete id ((k, a) ∷ m) = let rest = delete id m in ite (string_discrete k id) rest ((k, a) ∷ rest)

abbrev pub insert : {A : Type 0} → String → A → List (String × A) → List (String × A)
insert id a m = (id, a) ∷ m

-- `p.unhealthyRuns[id]`, which is 0 where there is no entry.
abbrev pub count_or_zero : Option ℕ → ℕ
count_or_zero none = 0
count_or_zero (some n) = n

pub record HealthPoller : Type 0 where
  pub cache : List (String × HealthStatus)
  pub qdrant_healthy : Bool
  pub unhealthy_runs : List (String × ℕ)
  pub last_restart : List (String × ℕ)

pub record PollResult : Type 0 where
  pub id : String
  pub status : HealthStatus

pub record Outside (W : Type 0) : Type 0 where
  pub plugin : DeploymentPlugin W
  pub sql_error : W → Option Error × W
  pub now : W → ℕ × W
  -- whether the context is done when the loop looks at it
  pub cancelled : W → Bool × W
  -- none where there is no Qdrant
  pub qdrant : Option (W → Bool × W)

-- What a poll does, newest first in a trace.
pub data Effect : Type 0 where
  emits : String → String → String → Effect
  restarts : String → Effect

pub record State (W : Type 0) : Type 0 where
  pub world : W
  pub poller : HealthPoller
  pub trace : List Effect

module _ {W : Type 0} (o : Outside W) (c : AutoRestartConfig) where
  abbrev pub runs_of : String → HealthPoller → ℕ
  runs_of id p = count_or_zero (lookup id p.unhealthy_runs)

  -- `last, ok := p.lastRestart[id]; ok && time.Since(last) < p.autoRestart.Cooldown`
  abbrev pub cooling : Option ℕ → ℕ → Bool
  cooling none now = false
  cooling (some last) now = ltb (now - last) c.cooldown

  -- `Restart`, and what is kept of it.
  unfoldable pub restart : String → State W → State W
  restart id s =
      let (fault, w1) = o.plugin.restart id s.world in
      let (now, w2) = o.now w1 in
      let p = s.poller in
      let trace = restarts id ∷ s.trace in
      elim fault [
        | some e ↦ record s { world = w1; trace = trace }
        | none ↦ record {
          world = w2;
          trace = trace;
          poller = record p {
            last_restart = insert id now p.last_restart;
            unhealthy_runs = insert id 0 p.unhealthy_runs;
          };
        }
      ]

  -- One round of `checkAutoRestart`, for an instance that was checked.
  unfoldable pub check_one : PollResult → State W → State W
  unfolding restart
  check_one r s =
      let p = s.poller in
      let runs = runs_of r.id p + 1 in
      let counted : State W = record s {
        poller = record p { unhealthy_runs = insert r.id runs p.unhealthy_runs };
      } in
      let last = lookup r.id p.last_restart in
      let q : ℕ × W = elim last [ none ↦ (0, s.world) | some _ ↦ o.now s.world ] in
      let looked : State W = record counted { world = q.1 } in
      if r.status.healthy
      then record s { poller = record p { unhealthy_runs = delete r.id p.unhealthy_runs } }
      else if ltb runs c.threshold
      then counted
      else if cooling last q.0
      then looked
      else restart r.id looked

  unfoldable pub check_auto_restart : List PollResult → State W → State W
  unfolding check_one
  check_auto_restart [] s = s
  check_auto_restart (r ∷ rs) s =
      check_auto_restart rs (ite (string_discrete r.id "") s (check_one r s))

  abbrev pub unchecked : PollResult
  unchecked = record {
    id = "";
    status = record { healthy = false; ready = false; checks = []; checked_at = 0 };
  }

  -- A check that fails counts as unhealthy, checked now.
  unfoldable pub health_of : String → W → HealthStatus × W
  health_of id w =
      let (answer, w1) = o.plugin.health_check id w in
      let (now, w2) = o.now w1 in
      elim answer [
        | ok status ↦ (status, w1)
        | err e ↦ (record { healthy = false; ready = false; checks = []; checked_at = now }, w2)
      ]

  -- The slots from some instance on stay empty where the context is done.
  unfoldable pub check_instances : List Instance → W → List PollResult × W
  unfolding health_of
  check_instances [] w = ([], w)
  check_instances (i ∷ is) w =
      let (stop, w1) = o.cancelled w in
      let (status, w2) = health_of i.id w1 in
      let (rest, w3) = check_instances is w2 in
      if stop
      then (empty_slots (i ∷ is), w1)
      else (record { id = i.id; status = status } ∷ rest, w3)
    where
      empty_slots : List Instance → List PollResult
      empty_slots [] = []
      empty_slots (j ∷ js) = unchecked ∷ empty_slots js

  unfoldable pub new_cache :
      List PollResult → List (String × HealthStatus) → List (String × HealthStatus)
  new_cache [] m = m
  new_cache (r ∷ rs) m = new_cache rs (ite (string_discrete r.id "") m (insert r.id r.status m))

  abbrev pub health_changed : Option HealthStatus → Bool → Bool
  health_changed none now = true
  health_changed (some h) now = if h.healthy then not now else now

  abbrev pub health_event : PollResult → Effect
  health_event r =
      if r.status.healthy
      then emits "health" r.id ("instance " ++ r.id ++ " is healthy")
      else emits "health" r.id ("instance " ++ r.id ++ " is unhealthy")

  -- An event for each instance that is new or whose health has changed.
  unfoldable pub emit_changes :
      List (String × HealthStatus) → List PollResult → List Effect → List Effect
  unfolding lookup
  emit_changes old [] trace = trace
  emit_changes old (r ∷ rs) trace = emit_changes old rs (
      ite (string_discrete r.id "") trace (
        if health_changed (lookup r.id old) r.status.healthy
        then health_event r ∷ trace
        else trace))

  unfoldable pub poll : Bool → List Row → State W → State W
  unfolding emit_changes new_cache check_instances check_auto_restart Instances.list
  poll has_events rows s =
      let (fault, w1) = o.sql_error s.world in
      elim (Instances.list fault rows) [
        | err e ↦ record s { world = w1 }
        | ok instances ↦
            let (results, w2) = check_instances instances w1 in
            let q : Bool × W = elim o.qdrant [ none ↦ (true, w2) | some f ↦ f w2 ] in
            let p = s.poller in
            let after : State W = record {
              world = q.1;
              poller = record p { cache = new_cache results []; qdrant_healthy = q.0 };
              trace = if has_events then emit_changes p.cache results s.trace else s.trace;
            } in
            if c.enabled then check_auto_restart results after else after
      ]

-- `Get`
unfoldable pub get : String → HealthPoller → Option HealthStatus
unfolding lookup
get id p = lookup id p.cache
