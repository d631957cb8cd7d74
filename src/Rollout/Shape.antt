-- ===== src/Rollout/Shape.antt =====
-- What a rollout of rollout.go can report, and what it has then done to the registry.
use fox_fleet.Prelude.{
  some, none, false, true, ◌⊎◌, ℕ, ◌≡◌, refl, String, Option, List, [], ◌∷◌, map, arith, inl, inr,
  Result, ok, err, Error, if◌then◌else◌, Bool-cases, Option-cases,
}
use fox_fleet.Plugins.{ImageRef}
use fox_fleet.Registry.Rows.{order_by_time, Instance, Row, update, set_image_digest}
use fox_fleet.Registry.Instances
use fox_fleet.Registry.Instances.{list}
use fox_fleet.Machine.{State}
use fox_fleet.Rollout.{
  InstanceResult, Report, Settings, Outside, Effect, Reason, rolled_out_result, rolled_back_result,
  skipped_result, is_rolled_out, rolls_out, rollout_error, no_error, aborted, is_wait_healthy,
  after_wait, healthy, timed_out, out_of_fuel, Wait, after_update, after_rollback, after_rollout,
  health_failed, health_and_rollback_failed, registry_update, rollout_instance, execute_loop,
  execute, wait_healthy,
}

abbrev pub to_target : ImageRef → Instance → List Row → List Row
to_target target i rows = update i.id (set_image_digest target.digest) rows

update_image_digest-ok :
    (fault : Option Error) (id digest : String) (rows : List Row)
    → (Instances.update_image_digest fault id digest rows).0 ≡ ok tt
    → (Instances.update_image_digest fault id digest rows).1
      ≡ update id (set_image_digest digest) rows
unfolding Instances.update_image_digest
update_image_digest-ok fault id digest rows h = ground arith

update_image_digest-error :
    (fault : Option Error) (id digest : String) (rows : List Row) (e : Error)
    → (Instances.update_image_digest fault id digest rows).0 ≡ err e
    → (Instances.update_image_digest fault id digest rows).1 ≡ rows
unfolding Instances.update_image_digest
update_image_digest-error fault id digest rows e h = ground arith

Wait-cases : (w : Wait) → (w ≡ healthy) ⊎ (is_wait_healthy w ≡ false)
Wait-cases healthy = inl refl
Wait-cases (timed_out n) = inr refl
Wait-cases out_of_fuel = inr refl

module _ {W : Type 0} (o : Outside W) (c : Settings) (fuel : ℕ) (target : ImageRef) where
  -- The context has been asked for.
  abbrev pub checked : State W Effect → State W Effect
  checked s = record s { world = (o.cancelled s.world).1 }

  -- The state that the rollout of an instance leaves.
  abbrev pub round : Instance → State W Effect → State W Effect
  round i s = (rollout_instance o c fuel i target s).1

  -- What the target, the health checks and the registry say to the rollout of an instance, where each
  -- is asked: the target first, then for the health, then the registry.
  abbrev pub Accepted : Instance → State W Effect → Type 0
  Accepted i s = (o.plugin.rollout i.id target s.world).0 ≡ none

  abbrev pub health : Instance → State W Effect → Wait × W
  health i s = wait_healthy o c fuel i.id (o.plugin.rollout i.id target s.world).1

  abbrev pub update_answer : Instance → State W Effect → Result (Unit {0})
  update_answer i s =
      (Instances.update_image_digest (o.sql_error (health i s).1).0 i.id target.digest s.rows).0

  abbrev pub Succeeds : Instance → State W Effect → Type 0
  Succeeds i s = Accepted i s × ((health i s).0 ≡ healthy) × (update_answer i s ≡ ok tt)

  -- The reason that a result gives is what has gone wrong.
  abbrev pub Blames : Instance → State W Effect → Reason → Type 0
  Blames i s no_error = ⊥
  Blames i s (rollout_error e) = (o.plugin.rollout i.id target s.world).0 ≡ some e
  Blames i s (health_failed w) = Accepted i s × ((health i s).0 ≡ w) × (is_wait_healthy w ≡ false)
  Blames i s (health_and_rollback_failed w e) =
      Accepted i s × ((health i s).0 ≡ w) × (is_wait_healthy w ≡ false)
  Blames i s (registry_update e) =
      Accepted i s × ((health i s).0 ≡ healthy) × (update_answer i s ≡ err e)
  Blames i s aborted = ⊥

  -- The results of a rollout over a list of instances, in its order, with the state before and after.
  -- While the context has not ended, instances succeed, and have the new digest in the table; the
  -- first that does not is rolled back, for a reason that holds, with the table as it was, and the
  -- others are skipped. Where the context has ended before an instance, those from there on are
  -- skipped.
  pub data Shape
      : List Instance → List InstanceResult → State W Effect → State W Effect → Type 0 where
    finished : (s : State W Effect) → Shape [] [] s s
    success :
        (i : Instance) (is : List Instance) (rs : List InstanceResult) (s s' : State W Effect)
        → (o.cancelled s.world).0 ≡ false
        → Succeeds i (checked s)
        → (round i (checked s)).rows ≡ to_target target i s.rows
        → Shape is rs (round i (checked s)) s'
        → Shape (i ∷ is) (rolled_out_result target i ∷ rs) s s'
    failure :
        (i : Instance) (is : List Instance) (reason : Reason) (s : State W Effect)
        → (o.cancelled s.world).0 ≡ false
        → Blames i (checked s) reason
        → (round i (checked s)).rows ≡ s.rows
        → Shape
            (i ∷ is)
            (rolled_back_result target i reason ∷ map (skipped_result target) is)
            s
            (round i (checked s))
    cancelled :
        (i : Instance) (is : List Instance) (s : State W Effect)
        → (o.cancelled s.world).0 ≡ true
        → Shape (i ∷ is) (map (skipped_result target) (i ∷ is)) s (checked s)

  -- How the rollout of one instance from the state `s` ends: its result and the table.
  data Ends (i : Instance) (s : State W Effect) : InstanceResult → List Row → Type 0 where
    updated : Succeeds i s → Ends i s (rolled_out_result target i) (to_target target i s.rows)
    kept :
        (reason : Reason) → Blames i s reason → Ends i s (rolled_back_result target i reason) s.rows

  after_update-Ends :
      (i : Instance) (s t : State W Effect) (a : Result (Unit {0}))
      → Accepted i s
      → (health i s).0 ≡ healthy
      → update_answer i s ≡ a
      → (a ≡ ok tt → t.rows ≡ to_target target i s.rows)
      → ((e : Error) → a ≡ err e → t.rows ≡ s.rows)
      → let q = after_update o c i target a t in Ends i s q.0 q.1.rows
  unfolding after_update
  after_update-Ends i s t (ok _) acc h u done failed = rw (done refl) (updated (acc, h, u))
  after_update-Ends i s t (err e) acc h u done failed =
      rw (failed e refl) (kept (registry_update e) (acc, h, u))

  after_rollback-Ends :
      (w : Wait) (i : Instance) (s : State W Effect) (a : Result (Unit {0}))
      → Accepted i s
      → (health i s).0 ≡ w
      → is_wait_healthy w ≡ false
      → Ends i s (after_rollback o c w i target a) s.rows
  unfolding after_rollback
  after_rollback-Ends w i s (ok _) acc h b = kept (health_failed w) (acc, h, b)
  after_rollback-Ends w i s (err e) acc h b = kept (health_and_rollback_failed w e) (acc, h, b)

  after_wait-Ends :
      (w : Wait) (i : Instance) (s : State W Effect) (trace : List Effect)
      → Accepted i s
      → (health i s).0 ≡ w
      → let t : State W Effect = record s { world = (health i s).1; trace = trace } in
        let q = after_wait o c w i target t in Ends i s q.0 q.1.rows
  unfolding after_wait
  after_wait-Ends healthy i s trace acc h =
      let fault = (o.sql_error (health i s).1).0 in
      after_update-Ends i s _ _ acc h refl (update_image_digest-ok fault i.id target.digest s.rows)
        (update_image_digest-error fault i.id target.digest s.rows)
  after_wait-Ends (timed_out n) i s trace acc h = after_rollback-Ends (timed_out n) i s _ acc h refl
  after_wait-Ends out_of_fuel i s trace acc h = after_rollback-Ends out_of_fuel i s _ acc h refl

  rollout_instance-Ends :
      (i : Instance) (s : State W Effect)
      → let q = rollout_instance o c fuel i target s in Ends i s q.0 q.1.rows
  unfolding rollout_instance after_rollout
  rollout_instance-Ends i s = elim (Option-cases (o.plugin.rollout i.id target s.world).0) [
    | inl p ↦
        rw (p, rollout_instance)
          (after_wait-Ends (health i s).0 i s (rolls_out i.id target ∷ s.trace) p refl)
    | inr (e, p) ↦ rw (p, rollout_instance) (kept (rollout_error e) p)
  ]

  -- One round of the loop, by how its instance ends.
  Shape-cons :
      (i : Instance) (is : List Instance) (rs : List InstanceResult) (r : InstanceResult)
      (s s' : State W Effect) (rows : List Row)
      → (o.cancelled s.world).0 ≡ false
      → (round i (checked s)).rows ≡ rows
      → Ends i (checked s) r rows
      → Shape is rs (round i (checked s)) s'
      → Shape
          (i ∷ is)
          (if is_rolled_out r.status then r ∷ rs else r ∷ map (skipped_result target) is)
          s
          (if is_rolled_out r.status then s' else round i (checked s))
  Shape-cons i is rs r s s' rows go e (updated good) rest = success i is rs s s' go good e rest
  Shape-cons i is rs r s s' rows go e (kept reason bad) rest = failure i is reason s go bad e

  execute_loop-Shape :
      (is : List Instance) (s : State W Effect)
      → let q = execute_loop o c fuel target is s in Shape is q.0 s q.1
  unfolding execute_loop
  execute_loop-Shape [] s = finished s
  execute_loop-Shape (i ∷ is) s =
      let q = rollout_instance o c fuel i target (checked s) in
      elim (Bool-cases (o.cancelled s.world).0) [
        | inl stop ↦ rw stop (cancelled i is s stop)
        | inr go ↦
            let cons =
              Shape-cons i is _ q.0 s _ _ go refl (rollout_instance-Ends i (checked s))
                (execute_loop-Shape is q.1) in
            elim (Bool-cases (is_rolled_out q.0.status)) [
              | inl b ↦ rw (go, b) (rw b at cons)
              | inr b ↦ rw (go, b) (rw b at cons)
            ]
      ]

  pub execute-Shape :
      (s s' : State W Effect) (report : Report)
      → execute o c fuel target s ≡ (ok report, s')
      → (report.target ≡ target)
        × Shape
            (map (λ r. r.inst) (order_by_time s.rows))
            report.instances
            (record s { world = (o.sql_error s.world).1 })
            s'
  unfolding execute Instances.list
  execute-Shape s s' report h =
      let is = map (λ r. r.inst) (order_by_time s.rows) in
      let s1 : State W Effect = record s { world = (o.sql_error s.world).1 } in
      let shape = execute_loop-Shape is s1 in
      elim (Option-cases (o.sql_error s.world).0) [
        | inr (e, failed) ↦ absurd (ground arith)
        | inl fine ↦
            let q = execute_loop o c fuel target is s1 in
            let results : q.0 ≡ report.instances = ground arith in
            let state : q.1 ≡ s' = ground arith in (ground arith, rw (results, state) at shape)
      ]
