-- ===== src/Panel/Steps.antt =====
-- The handlers of panel/api that write, with the ends of their goroutines and every other write of the
-- registry and of internal/cloud, in any order. A handler up to the start of its goroutine, or of
-- the call of the target, is one step.
use fox_fleet.Prelude.{ℕ, String, Option, Result, Error}
use mathlib.Core.List.{Memᴰ}
use fox_fleet.Config.{}
use fox_fleet.Plugins.{ImageRef}
use fox_fleet.Provisioner.Defs.{Request}
use fox_fleet.Registry.Rows.{}
use fox_fleet.Registry.Writes.{}
use fox_fleet.Cloud.Rows.{}
use fox_fleet.Cloud.Users.{}
use fox_fleet.Cloud.Invariant.{}
use fox_fleet.Cloud.Operations.{Op, step, step-Inv}
use fox_fleet.Panel.Http.{}
use fox_fleet.Panel.Names.{}
use fox_fleet.Panel.Server.{Server, Settings, creating, provisioning, upgrading, with_db}
use fox_fleet.Panel.Create.{CreateRequest, handle_create, finish_create}
use fox_fleet.Panel.Provision.{ProvisionRequest, handle_provision, finish_provision}
use fox_fleet.Panel.Upgrade.{begin_upgrade, finish_upgrade}
use fox_fleet.Panel.Guard.{Guarded}
use fox_fleet.Panel.Starts.{handle_create-Ok, begin_upgrade-Ok, handle_provision-Ok}
use fox_fleet.Panel.Ends.{finish_create-Ok, finish_provision-Ok, finish_upgrade-Ok}

module _ (nocase sha256_hex : String → String) (c : Settings) where
  -- One step. The first is any other write of the tables: a method of `UserStore`, `SessionStore` or
  -- `Registry`, by whomever it is called.
  pub data Step : Server → Server → Type 0 where
    write_step : (o : Op) (s : Server) → Step s (with_db s (step nocase sha256_hex o s.db))
    create_step :
        (get_fault list_fault : Option Error) (body : Option CreateRequest) (s : Server)
        → Step s ((handle_create c get_fault list_fault body s).1)
    provision_step :
        (get_fault list_fault fault : Option Error) (hashed : Result String) (now : ℕ)
        (body : Option ProvisionRequest) (s : Server)
        → Step s ((handle_provision nocase c get_fault list_fault fault hashed now body s).1)
    upgrade_step :
        (fault : Option Error) (id : String) (body : Option String) (s : Server)
        → Step s ((begin_upgrade c fault id body s).1)
    create_end :
        (id owner : String) (req : Request) (outcome fault : Option Error) (now : ℕ) (s : Server)
        → Memᴰ (record { id = id; task = creating req owner }) s.jobs
        → Step s (finish_create nocase c outcome fault now owner id s)
    provision_end :
        (id : String) (req : Request) (outcome fault : Option Error) (now : ℕ) (s : Server)
        → Memᴰ (record { id = id; task = provisioning req id }) s.jobs
        → Step s (finish_provision nocase c outcome fault now id s)
    upgrade_end :
        (id previous : String) (target : ImageRef) (outcome fault : Option Error) (s : Server)
        → Memᴰ (record { id = id; task = upgrading target previous }) s.jobs
        → Step s ((finish_upgrade c outcome fault id target previous s).1)

  pub data Reach (start : Server) : Server → Type 0 where
    begin : Reach start start
    next : {s t : Server} → Reach start s → Step s t → Reach start t

  abbrev Ok : Server → Type 0
  Ok s = Guarded nocase s.db s.in_flight s.jobs

  Step-Ok : {s t : Server} → Step s t → Ok s → Ok t
  Step-Ok (write_step o s) g = record {
    ids = g.ids;
    distinct = g.distinct;
    tables = step-Inv nocase sha256_hex o s.db g.tables;
  }
  Step-Ok (create_step get_fault list_fault body s) g =
      handle_create-Ok nocase sha256_hex c get_fault list_fault body s g
  Step-Ok (provision_step get_fault list_fault fault hashed now body s) g =
      handle_provision-Ok nocase sha256_hex c get_fault list_fault fault hashed now body s g
  Step-Ok (upgrade_step fault id body s) g = begin_upgrade-Ok nocase sha256_hex c fault id body s g
  Step-Ok (create_end id owner req outcome fault now s m) g =
      finish_create-Ok nocase sha256_hex c outcome fault now owner id s g
  Step-Ok (provision_end id req outcome fault now s m) g =
      finish_provision-Ok nocase sha256_hex c outcome fault now id s g
  Step-Ok (upgrade_end id previous target outcome fault s m) g =
      finish_upgrade-Ok nocase sha256_hex c outcome fault id target previous s g

  -- In whatever order the handlers, the ends of their goroutines and other writes come: where it held
  -- at the start, the guard holds the ids of the operations that are going on, in their order and
  -- each once; no two users have one name up to case or one instance, no two sessions have one hash,
  -- every user's instance is a row of `instances`, and every session's user is a row of
  -- `cloud_users`.
  pub Reach-Guarded :
      {s t : Server}
      → Reach s t
      → Guarded nocase s.db s.in_flight s.jobs
      → Guarded nocase t.db t.in_flight t.jobs
  Reach-Guarded begin g = g
  Reach-Guarded (next r p) g = Step-Ok p (Reach-Guarded r g)
