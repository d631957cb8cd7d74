-- ===== src/Provisioner/Deploy.antt =====
-- What `Provision` does after the critical section, and the whole of it.
use fox_fleet.Prelude.{
  ℕ, zero, suc, ◌≡◌, refl, sym, ap, ◌∙◌, String, ◌∷◌, Bool, true, false, if◌then◌else◌, arith, ◌⊎◌,
  inl, inr, Result, Result-cases, ok, err, Error,
}
use fox_fleet.Machine.{State, writes}
use fox_fleet.Registry.Rows.{update, set_status}
use fox_fleet.Registry.Instances.{update_status}
use fox_fleet.Provisioner.Defs.{
  Settings, Request, Outside, Effect, provisions, destroys, removes_data, Provisioned,
}
use fox_fleet.Provisioner.Service.{
  Reservation, rollback, copy_skillset, retry_update_status, deploy, provision_request,
}
use fox_fleet.Config.{is_empty}

module _ {W : Type 0} (o : Outside W) (c : Settings) where
  -- One try.
  abbrev try_status : String → String → State W Effect → Result (Unit {0}) × State W Effect
  try_status id status = writes o.sql_error λ fault rows. update_status fault id status rows

  try_status-ok :
      (id status : String) (s : State W Effect)
      → (try_status id status s).0 ≡ ok tt
      → let s' = (try_status id status s).1 in
        (s'.rows ≡ update id (set_status status) s.rows) × (s'.trace ≡ s.trace)
  unfolding update_status
  try_status-ok id status s h = ground arith

  try_status-error :
      (id status : String) (s : State W Effect) (e : Error)
      → (try_status id status s).0 ≡ err e
      → let s' = (try_status id status s).1 in (s'.rows ≡ s.rows) × (s'.trace ≡ s.trace)
  unfolding update_status
  try_status-error id status s e h = ground arith

  retry_found :
      (k : ℕ) (last : Error) (id status : String) (s : State W Effect)
      → (try_status id status s).0 ≡ ok tt
      → retry_update_status o c (suc k) last id status s ≡ (ok tt, (try_status id status s).1)
  unfolding retry_update_status
  retry_found k last id status s h = ground arith

  retry_again :
      (k : ℕ) (last : Error) (id status : String) (s : State W Effect) (e : Error)
      → (try_status id status s).0 ≡ err e
      → retry_update_status o c (suc k) last id status s
        ≡ retry_update_status o c k e id status (try_status id status s).1
  unfolding retry_update_status
  retry_again k last id status s e h = rw (h, retry_update_status)

  retry-ok :
      (k : ℕ) (last : Error) (id status : String) (s s' : State W Effect)
      → retry_update_status o c k last id status s ≡ (ok tt, s')
      → (s'.rows ≡ update id (set_status status) s.rows) × (s'.trace ≡ s.trace)
  unfolding retry_update_status
  retry-ok zero last id status s s' h = cc
  retry-ok (suc k) last id status s s' h = elim (Result-cases (try_status id status s).0) [
    | inl (_, done) ↦
        ground (arith, try_status-ok id status s done, retry_found k last id status s done)
    | inr (e, failed) ↦
        let (rows_eq, trace_eq) = try_status-error id status s e failed in
        let ih =
          retry-ok k e id status (try_status id status s).1 s'
            (sym (retry_again k last id status s e failed) ∙ h) in
        (ih.0 ∙ ap (update id (set_status status)) rows_eq, ih.1 ∙ trace_eq)
  ]

  pub retry-error :
      (k : ℕ) (last : Error) (id status : String) (s s' : State W Effect) (x : Error)
      → retry_update_status o c k last id status s ≡ (err x, s')
      → (s'.rows ≡ s.rows) × (s'.trace ≡ s.trace)
  unfolding retry_update_status
  retry-error zero last id status s s' x h = ground arith
  retry-error (suc k) last id status s s' x h = elim (Result-cases (try_status id status s).0) [
    | inl (_, done) ↦ absurd (ground (arith, retry_found k last id status s done))
    | inr (e, failed) ↦
        let (rows_eq, trace_eq) = try_status-error id status s e failed in
        let ih =
          retry-error k e id status (try_status id status s).1 s' x
            (sym (retry_again k last id status s e failed) ∙ h) in
        (ih.0 ∙ rows_eq, ih.1 ∙ trace_eq)
  ]

  -- The retries end with the status set, or with an error and the table as it was.
  retry-cases :
      (k : ℕ) (last : Error) (id status : String) (s : State W Effect)
      → let q = retry_update_status o c k last id status s in
        ((q.0 ≡ ok tt) × (q.1.rows ≡ update id (set_status status) s.rows) × (q.1.trace ≡ s.trace))
        ⊎ ((e : Error) × (q.0 ≡ err e) × (q.1.rows ≡ s.rows) × (q.1.trace ≡ s.trace))
  retry-cases k last id status s =
      let q = retry_update_status o c k last id status s in
      elim (Result-cases q.0) [
        | inl (_, done) ↦
            let (a, b) = retry-ok k last id status s q.1 (ground (arith, done)) in inl (done, a, b)
        | inr (e, failed) ↦
            let (a, b) = retry-error k last id status s q.1 e (ground (arith, failed)) in
            inr (e, failed, a, b)
      ]

  rollback-trace :
      (id dir : String) (d : Bool) (s : State W Effect)
      → (rollback o c id dir d s).1.trace
        ≡ removes_data dir ∷ elim d [ true ↦ destroys id ∷ s.trace | false ↦ s.trace ]
  unfolding rollback
  rollback-trace id dir true s = refl
  rollback-trace id dir false s = refl

  pub deploy-ok :
      (req : Request) (r : Reservation) (s s' : State W Effect) (p : Provisioned)
      → deploy o c req r s ≡ (ok p, s')
      → (s'.rows ≡ update req.instance_id (set_status "running") s.rows)
        × (p.port ≡ r.inst.port)
        × (p.id ≡ req.instance_id)
  unfolding deploy copy_skillset
  deploy-ok req r s s' p h = grind (arith, retry-cases)

  -- Where the instance finds its skillset.
  abbrev pub injected_path : Request → String
  injected_path req =
      if is_empty req.skillset_path then req.skillset_path else "/data/skillset.yaml"

  -- After an error the trace ends with the rollback: the data directory is removed, and where the
  -- target had been asked for a container, that is destroyed before.
  pub deploy_error-trace :
      (req : Request) (r : Reservation) (s s' : State W Effect) (e : Error)
      → deploy o c req r s ≡ (err e, s')
      → (s'.trace ≡ removes_data r.inst.data_dir ∷ s.trace)
        ⊎ (s'.trace
            ≡ removes_data r.inst.data_dir
              ∷ destroys req.instance_id
              ∷ provisions (provision_request o c req r (injected_path req))
              ∷ s.trace)
  unfolding deploy copy_skillset
  deploy_error-trace req r s s' e h = grind (arith, rollback-trace, retry-cases)
