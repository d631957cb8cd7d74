-- ===== src/Panel/Starts.antt =====
-- What the handlers of panel/api that start an operation keep of the guard and of the tables.
use fox_fleet.Prelude.{
  ℕ, ◌≡◌, String, Option, none, some, ◌∷◌, false, arith, Bool-cases, Option-cases, inl, inr,
  if_both, Result, ok, err, Error,
}
use mathlib.Core.List.{}
use fox_fleet.Config.{}
use fox_fleet.Plugins.{ImageRef}
use fox_fleet.Provisioner.Defs.{}
use fox_fleet.Registry.Rows.{Instance}
use fox_fleet.Registry.Instances
use fox_fleet.Registry.Writes.{}
use fox_fleet.Cloud.Rows.{Db, User}
use fox_fleet.Cloud.Users.{create_user}
use fox_fleet.Cloud.Invariant.{Inv}
use fox_fleet.Cloud.Operations.{creates_user, step-Inv}
use fox_fleet.Panel.Http.{Response, conflict}
use fox_fleet.Panel.Names.{}
use fox_fleet.Panel.Server.{Server, Settings, is_in_flight}
use fox_fleet.Panel.Create.{CreateRequest, CreateResponse, check_place, after_place, handle_create}
use fox_fleet.Panel.Provision.{
  ProvisionRequest, ProvisionResponse, handle_provision, finish_provision, refused, guarded,
  after_user,
}
use fox_fleet.Panel.Provision
use fox_fleet.Panel.Upgrade.{
  UpgradeResponse, begin_upgrade, parse_image_ref, after_parse, after_get,
}
use fox_fleet.Panel.Guard.{Guarded, Guarded-start, Guarded-set_clear}

module _ (nocase sha256_hex : String → String) (c : Settings) where
  abbrev Ok : Server → Type 0
  Ok s = Guarded nocase s.db s.in_flight s.jobs

  after_place-Ok :
      (b : CreateRequest) (r : Option (Response CreateResponse)) (s : Server)
      → is_in_flight b.id s.in_flight ≡ false
      → Ok s
      → Ok ((after_place c b r (record s { in_flight = b.id ∷ s.in_flight })).1)
  after_place-Ok b (some r) s free g =
      Guarded-set_clear nocase s.db s.db s.in_flight s.jobs b.id free g.tables g
  after_place-Ok b none s free g =
      Guarded-start nocase s.db s.db s.in_flight s.jobs _ free g.tables g

  pub handle_create-Ok :
      (get_fault list_fault : Option Error) (body : Option CreateRequest) (s : Server)
      → Ok s
      → Ok ((handle_create c get_fault list_fault body s).1)
  unfolding handle_create
  handle_create-Ok get_fault list_fault none s g = g
  handle_create-Ok get_fault list_fault (some b) s g =
      elim (Bool-cases (is_in_flight b.id s.in_flight)) [
        | inl p ↦ ground arith
        | inr p ↦
            ground (
              arith,
              after_place-Ok b (check_place c get_fault list_fault b.id conflict s.db) s p g,
            )
      ]

  after_get-Ok :
      (id : String) (target : ImageRef) (r : Result Instance) (s : Server)
      → is_in_flight id s.in_flight ≡ false
      → Ok s
      → Ok ((after_get c id target r (record s { in_flight = id ∷ s.in_flight })).1)
  after_get-Ok id target (err e) s free g =
      Guarded-set_clear nocase s.db s.db s.in_flight s.jobs id free g.tables g
  after_get-Ok id target (ok inst) s free g =
      if_both (λ (r : Option (Response UpgradeResponse) × Server). Ok (r.1)) _
        (Guarded-set_clear nocase s.db s.db s.in_flight s.jobs id free g.tables g)
        (Guarded-start nocase s.db s.db s.in_flight s.jobs _ free g.tables g)

  after_parse-Ok :
      (fault : Option Error) (id : String) (r : Result ImageRef) (s : Server)
      → Ok s
      → Ok ((after_parse c fault id r s).1)
  after_parse-Ok fault id (err e) s g = g
  after_parse-Ok fault id (ok target) s g = elim (Bool-cases (is_in_flight id s.in_flight)) [
    | inl p ↦ rw p g
    | inr p ↦ rw p (after_get-Ok id target (Instances.get fault id s.db.instances) s p g)
  ]

  pub begin_upgrade-Ok :
      (fault : Option Error) (id : String) (body : Option String) (s : Server)
      → Ok s
      → Ok ((begin_upgrade c fault id body s).1)
  unfolding begin_upgrade
  begin_upgrade-Ok fault id none s g = g
  begin_upgrade-Ok fault id (some text) s g =
      ground (arith, after_parse-Ok fault id (parse_image_ref text) s g)

  after_user-Ok :
      (slug : String) (r : Result User × Db) (s : Server)
      → is_in_flight slug s.in_flight ≡ false
      → Inv nocase (r.1)
      → Ok s
      → Ok ((after_user nocase c slug r (record s { in_flight = slug ∷ s.in_flight })).1)
  after_user-Ok slug (err e, db) s free v g =
      Guarded-set_clear nocase s.db db s.in_flight s.jobs slug free v g
  after_user-Ok slug (ok u, db) s free v g =
      Guarded-start nocase s.db db s.in_flight s.jobs _ free v g

  provision_place-Ok :
      (fault : Option Error) (hashed : Result String) (now : ℕ) (req : ProvisionRequest)
      (r : Option (Response ProvisionResponse)) (s : Server)
      → is_in_flight req.slug s.in_flight ≡ false
      → Ok s
      → Ok (
          (Provision.after_place nocase c fault hashed now req r
            (record s { in_flight = req.slug ∷ s.in_flight })).1)
  provision_place-Ok fault hashed now req (some r) s free g =
      Guarded-set_clear nocase s.db s.db s.in_flight s.jobs req.slug free g.tables g
  provision_place-Ok fault hashed now req none s free g =
      after_user-Ok req.slug (create_user nocase fault hashed now req.slug req.password s.db) s free
        (step-Inv nocase sha256_hex (creates_user fault hashed now req.slug req.password) s.db
          g.tables)
        g

  guarded-Ok :
      (get_fault list_fault fault : Option Error) (hashed : Result String) (now : ℕ)
      (req : ProvisionRequest) (s : Server)
      → Ok s
      → Ok ((guarded nocase c get_fault list_fault fault hashed now req s).1)
  guarded-Ok get_fault list_fault fault hashed now req s g =
      elim (Bool-cases (is_in_flight req.slug s.in_flight)) [
        | inl p ↦ rw p g
        | inr p ↦ rw p (provision_place-Ok fault hashed now req _ s p g)
      ]

  pub handle_provision-Ok :
      (get_fault list_fault fault : Option Error) (hashed : Result String) (now : ℕ)
      (body : Option ProvisionRequest) (s : Server)
      → Ok s
      → Ok ((handle_provision nocase c get_fault list_fault fault hashed now body s).1)
  unfolding handle_provision
  handle_provision-Ok get_fault list_fault fault hashed now none s g = g
  handle_provision-Ok get_fault list_fault fault hashed now (some req) s g =
      elim (Option-cases (refused {A = ProvisionResponse} req)) [
        | inl p ↦
            rw (p, handle_provision) (guarded-Ok get_fault list_fault fault hashed now req s g)
        | inr (r, p) ↦ rw (p, handle_provision) g
      ]
