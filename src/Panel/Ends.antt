-- ===== src/Panel/Ends.antt =====
-- What the end of an operation keeps of the guard of panel/api and of the tables.
use fox_fleet.Prelude.{
  ℕ, String, Option, none, some, not, Bool-cases, inl, inr, Result, ok, err, Error, ◌&&◌,
}
use mathlib.Core.List.{}
use fox_fleet.Config.{is_empty}
use fox_fleet.Plugins.{ImageRef}
use fox_fleet.Provisioner.Defs.{}
use fox_fleet.Registry.Rows.{}
use fox_fleet.Registry.Writes.{sets_digest}
use fox_fleet.Cloud.Rows.{Db}
use fox_fleet.Cloud.Users.{set_instance_id}
use fox_fleet.Cloud.Invariant.{Inv}
use fox_fleet.Cloud.Operations.{deletes_user, sets_instance, writes, step-Inv}
use fox_fleet.Panel.Http.{}
use fox_fleet.Panel.Names.{}
use fox_fleet.Panel.Server.{Server, Settings, clear, without_job, clear_in_flight, job_done}
use fox_fleet.Panel.Create.{finish_create, bound}
use fox_fleet.Panel.Provision.{finish_provision}
use fox_fleet.Panel.Upgrade.{finish_upgrade, new_digest}
use fox_fleet.Panel.Guard.{Guarded, Guarded-end}

module _ (nocase sha256_hex : String → String) (c : Settings) where
  abbrev Ok : Server → Type 0
  Ok s = Guarded nocase s.db s.in_flight s.jobs

  -- The end of a goroutine that leaves the tables as `db`.
  end-Ok :
      (id : String) (db : Db) (s : Server)
      → Inv nocase db
      → Ok s
      → Guarded nocase db (clear id s.in_flight) (without_job id s.jobs)
  end-Ok id db s v g = Guarded-end nocase s.db db s.in_flight s.jobs id v g

  set_instance-Inv :
      (fault : Option Error) (now : ℕ) (name id : String) (s : Server)
      → Ok s
      → Inv nocase ((set_instance_id nocase fault now name id s.db).1)
  set_instance-Inv fault now name id s g =
      step-Inv nocase sha256_hex (sets_instance fault now name id) s.db g.tables

  bound-Ok :
      (id : String) (r : Result (Unit {0}) × Db) (s : Server)
      → Inv nocase (r.1)
      → Ok s
      → Ok (clear_in_flight id (job_done id (bound c id r s)))
  bound-Ok id (ok x, db) s v g = end-Ok id db s v g
  bound-Ok id (err e, db) s v g = end-Ok id db s v g

  pub finish_create-Ok :
      (outcome fault : Option Error) (now : ℕ) (owner id : String) (s : Server)
      → Ok s
      → Ok (finish_create nocase c outcome fault now owner id s)
  unfolding finish_create
  finish_create-Ok (some e) fault now owner id s g = end-Ok id s.db s g.tables g
  finish_create-Ok none fault now owner id s g =
      elim (Bool-cases (not (is_empty c.domain) && not (is_empty owner) && c.has_users)) [
        | inr p ↦ rw p (end-Ok id s.db s g.tables g)
        | inl p ↦ rw p (bound-Ok id _ s (set_instance-Inv fault now owner id s g) g)
      ]

  pub finish_provision-Ok :
      (outcome fault : Option Error) (now : ℕ) (id : String) (s : Server)
      → Ok s
      → Ok (finish_provision nocase c outcome fault now id s)
  unfolding finish_provision
  finish_provision-Ok (some e) fault now id s g =
      end-Ok id _ s (step-Inv nocase sha256_hex (deletes_user fault id) s.db g.tables) g
  finish_provision-Ok none fault now id s g =
      bound-Ok id _ s (set_instance-Inv fault now id id s g) g

  pub finish_upgrade-Ok :
      (outcome fault : Option Error) (id : String) (target : ImageRef) (previous : String)
      (s : Server)
      → Ok s
      → Ok ((finish_upgrade c outcome fault id target previous s).1)
  unfolding finish_upgrade
  finish_upgrade-Ok (some e) fault id target previous s g = end-Ok id s.db s g.tables g
  finish_upgrade-Ok none fault id target previous s g =
      end-Ok id _ s
        (step-Inv nocase sha256_hex (writes fault (sets_digest id (new_digest target))) s.db
          g.tables)
        g
