-- ===== src/Provisioner/Failure.antt =====
-- What the steps of `Provision` behind the reservation come to, where one of them fails.
use fox_fleet.Prelude.{
  ◌≡◌, refl, subst, ◌∙◌, ◌⊎◌, inl, inr, String, Option, List, [], ◌∷◌, Bool, true, false, Result,
  err, Error, message,
}
use fox_fleet.Machine.{State, pure, ◌>>=◌, ◌>>◌, note, act}
use fox_fleet.Config.{}
use fox_fleet.Registry.Rows.{delete_where}
use fox_fleet.Registry.Instances.{}
use fox_fleet.Provisioner.Defs.{
  Settings, Request, Outside, Effect, P, Provisioned, provisions, registry_retries,
}
use fox_fleet.Provisioner.Service.{
  Reservation, provision_request, inject_params, or_undo, copy_skillset, retry_update_status,
  deploy,
}
use fox_fleet.Provisioner.Calls.{
  Calls, no_calls, one_call, mkdir_call, config_call, onboarding_call, provision_call,
}
use fox_fleet.Provisioner.Deploy.{retry-error}
use fox_fleet.Provisioner.Undone.{
  SqlFails, Undone, Ends, delete-cases, Ends-after, Ends-then, or_undo-Steps, or_undo-Ends,
  retry-Calls, copy_skillset-Steps,
}

module _ {W : Type 0} (o : Outside W) (c : Settings) where
  -- The steps of `deploy`, from the last one back.
  module _ (req : Request) (r : Reservation) where
    abbrev id : String
    id = req.instance_id

    abbrev dir : String
    dir = r.inst.data_dir

    abbrev undoing : Bool → List String → P W (Unit {0}) → P W (Unit {0})
    undoing d words m = or_undo o c id dir d words m

    abbrev running : P W (Unit {0})
    running = retry_update_status o c registry_retries (message []) id "running"

    abbrev provisioned : Provisioned
    provisioned = record {
      id = id;
      port = r.inst.port;
      data_dir = dir;
      status = "running";
      created_at = r.now;
    }

    abbrev set_running : P W Provisioned
    set_running = undoing true ("provisioner: update status" ∷ []) running >> pure provisioned

    abbrev ask_target : String → P W Provisioned
    ask_target path =
        undoing true ("provisioner: deploy" ∷ [])
          (act (o.plugin.provision (provision_request o c req r path)))
        >> set_running

    abbrev note_target : String → P W Provisioned
    note_target path = note (provisions (provision_request o c req r path)) >> ask_target path

    abbrev mark : String → P W Provisioned
    mark path =
        undoing false ("provisioner: mark onboarding complete" ∷ [])
          (act (o.mark_onboarding_complete dir))
        >> note_target path

    abbrev inject : String → P W Provisioned
    inject path =
        undoing false ("provisioner: inject config" ∷ [])
          (act (o.config_writer (inject_params o c req r path)))
        >> mark path

    set_running-Ends : (s : State W Effect) → Ends o c id s (set_running s)
    set_running-Ends s =
        or_undo-Ends o c id dir _ provisioned s (running s) (retry-Calls o c _ _ id "running" s)
          (λ e p.
            (retry-error o c _ _ id "running" s (running s).1 e (λ i. (p i, (running s).1))).0)

    -- A step that is one call, and what comes after it.
    call-Ends :
        (d : Bool) (words : List String) (f : W → Option Error × W) (next : P W Provisioned)
        (s : State W Effect)
        → Calls o s.world (f s.world).1
        → ((t : State W Effect) → Ends o c id t (next t))
        → Ends o c id s ((undoing d words (act f) >> next) s)
    call-Ends d words f next s p h =
        Ends-then o c id s (λ _. next) (undoing d words (act f) s)
          (or_undo-Steps o c id dir d words s (act f s) p refl) (λ _ t. h t)

    ask_target-Ends : (path : String) (s : State W Effect) → Ends o c id s (ask_target path s)
    ask_target-Ends path s =
        call-Ends true ("provisioner: deploy" ∷ [])
          (o.plugin.provision (provision_request o c req r path)) set_running s
          (one_call o _ _ (provision_call (provision_request o c req r path) s.world))
          set_running-Ends

    note_target-Ends : (path : String) (s : State W Effect) → Ends o c id s (note_target path s)
    note_target-Ends path s =
        let t : State W Effect = record s {
          trace = provisions (provision_request o c req r path) ∷ s.trace;
        } in
        Ends-after o c id s t (ask_target path t) (no_calls s.world) refl (ask_target-Ends path t)

    mark-Ends : (path : String) (s : State W Effect) → Ends o c id s (mark path s)
    mark-Ends path s =
        call-Ends false ("provisioner: mark onboarding complete" ∷ [])
          (o.mark_onboarding_complete dir) (note_target path) s
          (one_call o _ _ (onboarding_call dir s.world)) (note_target-Ends path)

    inject-Ends : (path : String) (s : State W Effect) → Ends o c id s (inject path s)
    inject-Ends path s =
        call-Ends false ("provisioner: inject config" ∷ [])
          (o.config_writer (inject_params o c req r path)) (mark path) s
          (one_call o _ _ (config_call (inject_params o c req r path) s.world)) (mark-Ends path)

    deploy-Ends : (s : State W Effect) → Ends o c id s (deploy o c req r s)
    unfolding deploy
    deploy-Ends s =
        call-Ends false ("provisioner: create data dir" ∷ []) (o.mkdir_all dir)
          (λ t. ◌>>=◌ (copy_skillset o c req dir) inject t) s
          (one_call o _ _ (mkdir_call dir s.world))
          (λ t.
            Ends-then o c id t inject (copy_skillset o c req dir t)
              (copy_skillset-Steps o c req dir t) inject-Ends)

  Ends-err :
      {A : Type 0} (id : String) (s t : State W Effect) (q : Result A × State W Effect) (e : Error)
      → Ends o c id s q
      → q ≡ (err e, t)
      → Undone o c id s t
  Ends-err id s t q e h p = subst (Ends o c id s) p h

  pub deploy-error :
      (req : Request) (r : Reservation) (s s' : State W Effect) (e : Error)
      → deploy o c req r s ≡ (err e, s')
      → (s'.rows ≡ delete_where req.instance_id s.rows)
        ⊎ ((s'.rows ≡ s.rows) × SqlFails o c s.world s'.world)
  deploy-error req r s s' e h =
      let (x, calls, rows_eq, last) = Ends-err req.instance_id s s' _ e (deploy-Ends req r s) h in
      elim (delete-cases o c (o.sql_error x).0 req.instance_id s.rows) [
        | inl gone ↦ inl (rows_eq ∙ gone)
        | inr (f, failed, same) ↦ inr (
          rows_eq ∙ same,
          record { at = x; error = f; calls = calls; fails = failed; last = last },
        )
      ]
