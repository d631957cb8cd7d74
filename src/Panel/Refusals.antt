-- ===== src/Panel/Refusals.antt =====
-- What the handlers of panel/api that start an operation refuse, and that a refusal changes nothing.
use Prim.Native.String.{len}
use fox_fleet.Prelude.{
  ℕ, ◌≡◌, ◌≤◌, refl, sym, ap, if_neg, ◌∙◌, String, Option, none, some, true, false, string_discrete,
  arith, not, if_both, Bool-cases, Option-cases, Result-cases, inl, inr, Result, ok, err, Error,
  user_exists,
}
use mathlib.Core.List.{Memᴰ}
use fox_fleet.Prelude.Errors.{cause}
use fox_fleet.Config.{is_empty}
use fox_fleet.Plugins.{ImageRef}
use fox_fleet.Registry.Rows.{Instance}
use fox_fleet.Registry.Rows
use fox_fleet.Registry.Instances
use fox_fleet.Cloud.Rows.{Db, User, UserRow, find_user}
use fox_fleet.Cloud.Users.{create_user, new_user}
use fox_fleet.Panel.Http.{Response, bad_request, conflict, reply, failure, is_failure}
use fox_fleet.Panel.Names.{is_valid_slug, valid_instance_id}
use fox_fleet.Panel.Server.{Server, Settings, Job, is_in_flight, set_in_flight, clear_in_flight}
use fox_fleet.Panel.Create.{CreateRequest, check_place, handle_create}
use fox_fleet.Panel.Provision.{
  ProvisionRequest, ProvisionResponse, SlugCheckResponse, handle_provision, handle_check_slug,
  refused, guarded, after_user, reserved_slugs, create_failure,
}
use fox_fleet.Panel.Provision
use fox_fleet.Panel.Upgrade.{UpgradeResponse, begin_upgrade, after_parse, parse_image_ref}
use fox_fleet.Panel.Guard.{Guarded, clear-set, Memᴰ-in_flight}

abbrev pub Unchanged : {A : Type 0} → Server → Response A × Server → Type 0
Unchanged s r = (r.1 ≡ s) × (is_failure (r.0) ≡ true)

-- An operation does not begin: it is answered with an error, and nothing has changed.
abbrev pub Denied : {A : Type 0} → Server → Option (Response A) × Server → Type 0
Denied {A} s q = (q.1 ≡ s) × ((r : Response A) × ((q.0 ≡ some r) × (is_failure r ≡ true)))

module _ (nocase : String → String) (c : Settings) where
  create_busy :
      (get_fault list_fault : Option Error) (b : CreateRequest) (s : Server)
      → is_in_flight b.id s.in_flight ≡ true
      → Unchanged s (handle_create c get_fault list_fault (some b) s)
  unfolding handle_create
  create_busy get_fault list_fault b s h = ground arith

  refused-is_failure :
      (req : ProvisionRequest) (r : Response ProvisionResponse)
      → refused req ≡ some r
      → is_failure r ≡ true
  unfolding refused
  refused-is_failure req r h = ground arith

  provision_busy :
      (get_fault list_fault fault : Option Error) (hashed : Result String) (now : ℕ)
      (req : ProvisionRequest) (s : Server)
      → is_in_flight req.slug s.in_flight ≡ true
      → Unchanged s (handle_provision nocase c get_fault list_fault fault hashed now (some req) s)
  unfolding handle_provision
  provision_busy get_fault list_fault fault hashed now req s h =
      elim (Option-cases (refused {A = ProvisionResponse} req)) [
        | inl p ↦ rw (p, handle_provision, h) (refl, refl)
        | inr (r, p) ↦ rw (p, handle_provision) (refl, refused-is_failure req r p)
      ]

  after_parse_busy :
      (fault : Option Error) (id : String) (target : Result ImageRef) (s : Server)
      → is_in_flight id s.in_flight ≡ true
      → Denied s (after_parse c fault id target s)
  after_parse_busy fault id (err e) s h = (refl, (bad_request, (refl, refl)))
  after_parse_busy fault id (ok target) s h = rw h (refl, (conflict, (refl, refl)))

  upgrade_busy :
      (fault : Option Error) (id text : String) (s : Server)
      → is_in_flight id s.in_flight ≡ true
      → Denied s (begin_upgrade c fault id (some text) s)
  unfolding begin_upgrade
  upgrade_busy fault id text s h =
      let bad : Denied {A = UpgradeResponse} s (some bad_request, s) =
        (refl, (bad_request, (refl, refl))) in
      if_both (Denied s) (not (valid_instance_id id)) bad (
        if_both (Denied s) (is_empty text) bad
          (after_parse_busy fault id (parse_image_ref text) s h))

  -- While an operation on an instance goes on, a request to create, to provision or to upgrade it is
  -- answered with an error and changes nothing; the upgrade does not go on to the target.
  pub busy_refused :
      (j : Job) (get_fault list_fault fault : Option Error) (hashed : Result String) (now : ℕ)
      (b : CreateRequest) (req : ProvisionRequest) (text : String) (s : Server)
      → Guarded nocase s.db s.in_flight s.jobs
      → Memᴰ j s.jobs
      → b.id ≡ j.id
      → req.slug ≡ j.id
      → Unchanged s (handle_create c get_fault list_fault (some b) s)
        × (Unchanged s
              (handle_provision nocase c get_fault list_fault fault hashed now (some req) s)
            × Denied s (begin_upgrade c fault j.id (some text) s))
  busy_refused j get_fault list_fault fault hashed now b req text s g m p q =
      let h : is_in_flight j.id s.in_flight ≡ true =
        ap (is_in_flight j.id) (sym g.ids) ∙ Memᴰ-in_flight j s.jobs m in
      (
        create_busy get_fault list_fault b s (ap (λ i. is_in_flight i s.in_flight) p ∙ h),
        (
          provision_busy get_fault list_fault fault hashed now req s
              (ap (λ i. is_in_flight i s.in_flight) q ∙ h),
          upgrade_busy fault j.id text s h,
        ),
      )

  create_user-err :
      (fault : Option Error) (hashed : Result String) (now : ℕ) (name password : String)
      (db db' : Db) (e : Error)
      → create_user nocase fault hashed now name password db ≡ (err e, db')
      → db' ≡ db
  unfolding create_user
  create_user-err fault hashed now name password db db' e h =
      elim (Result-cases (new_user nocase fault hashed now name password db)) [
        | inl (x, p) ↦ ground arith
        | inr (x, p) ↦ ground arith
      ]

  set_clear :
      (id : String) (s : Server)
      → is_in_flight id s.in_flight ≡ false
      → clear_in_flight id (set_in_flight id s) ≡ s
  set_clear id s free = ap (λ is. record s { in_flight = is }) (clear-set id s.in_flight free)

  after_user-failure :
      (slug : String) (r : Result User × Db) (s : Server)
      → is_in_flight slug s.in_flight ≡ false
      → ((e : Error) (db' : Db) → r ≡ (err e, db') → db' ≡ s.db)
      → is_failure ((after_user nocase c slug r (set_in_flight slug s)).0) ≡ true
      → (after_user nocase c slug r (set_in_flight slug s)).1 ≡ s
  after_user-failure slug (err e, db) s free same h = rw (same e db refl) (set_clear slug s free)
  after_user-failure slug (ok u, db) s free same h = absurd (ground arith)

  after_place-failure :
      (fault : Option Error) (hashed : Result String) (now : ℕ) (req : ProvisionRequest)
      (r : Option (Response ProvisionResponse)) (s : Server)
      → is_in_flight req.slug s.in_flight ≡ false
      → is_failure
          ((Provision.after_place nocase c fault hashed now req r (set_in_flight req.slug s)).0)
        ≡ true
      → (Provision.after_place nocase c fault hashed now req r (set_in_flight req.slug s)).1 ≡ s
  after_place-failure fault hashed now req (some r) s free h = set_clear req.slug s free
  after_place-failure fault hashed now req none s free h =
      after_user-failure req.slug (create_user nocase fault hashed now req.slug req.password s.db) s
        free (λ e db' p. create_user-err fault hashed now req.slug req.password s.db db' e p) h

  -- An error leaves the state as it was.
  abbrev Kept : {A : Type 0} → Server → Response A × Server → Type 0
  Kept s r = is_failure (r.0) ≡ true → r.1 ≡ s

  guarded-Kept :
      (get_fault list_fault fault : Option Error) (hashed : Result String) (now : ℕ)
      (req : ProvisionRequest) (s : Server)
      → Kept s (guarded nocase c get_fault list_fault fault hashed now req s)
  guarded-Kept get_fault list_fault fault hashed now req s =
      elim (Bool-cases (is_in_flight req.slug s.in_flight)) [
        | inl p ↦ rw p (λ h. refl)
        | inr p ↦
            let place =
              check_place c get_fault list_fault req.slug (failure 409 "slug_taken") s.db in
            rw p (λ h. after_place-failure fault hashed now req place s p h)
      ]

  handle_provision-Kept :
      (get_fault list_fault fault : Option Error) (hashed : Result String) (now : ℕ)
      (body : Option ProvisionRequest) (s : Server)
      → Kept s (handle_provision nocase c get_fault list_fault fault hashed now body s)
  unfolding handle_provision
  handle_provision-Kept get_fault list_fault fault hashed now none s = λ h. refl
  handle_provision-Kept get_fault list_fault fault hashed now (some req) s =
      elim (Option-cases (refused {A = ProvisionResponse} req)) [
        | inl p ↦
            rw (p, handle_provision) (guarded-Kept get_fault list_fault fault hashed now req s)
        | inr (r, p) ↦ rw (p, handle_provision) (λ h. refl)
      ]

  -- A request to provision that is answered with an error leaves the guard, the jobs and the tables as
  -- they were.
  pub handle_provision-failure :
      (get_fault list_fault fault : Option Error) (hashed : Result String) (now : ℕ)
      (body : Option ProvisionRequest) (s : Server)
      → is_failure ((handle_provision nocase c get_fault list_fault fault hashed now body s).0)
        ≡ true
      → (handle_provision nocase c get_fault list_fault fault hashed now body s).1 ≡ s
  handle_provision-failure get_fault list_fault fault hashed now body s h =
      handle_provision-Kept get_fault list_fault fault hashed now body s h

  not_empty : (t : String) → 1 ≤ len t → is_empty t ≡ false
  not_empty t h = elim (string_discrete t "") [
    | yes p ↦ absurd (ground (arith, ap len p))
    | no p ↦ if_neg (string_discrete t "") p true false
  ]

  valid-not_empty : (t : String) → is_valid_slug t ≡ true → is_empty t ≡ false
  unfolding is_valid_slug
  valid-not_empty t h = elim (string_discrete t "") [
    | yes p ↦ absurd (ground (arith, ap len p))
    | no p ↦ if_neg (string_discrete t "") p true false
  ]

  refused-none :
      (req : ProvisionRequest)
      → is_valid_slug req.slug ≡ true
      → is_in_flight req.slug reserved_slugs ≡ false
      → req.username ≡ ""
      → 8 ≤ len req.password
      → len req.password ≤ 72
      → refused {A = ProvisionResponse} req ≡ none
  unfolding refused
  refused-none req valid free no_name long short = ground (arith, valid-not_empty req.slug valid)

  create_user-taken :
      (hash : String) (now : ℕ) (name password : String) (u : UserRow) (db : Db)
      → is_empty name ≡ false
      → is_empty password ≡ false
      → find_user nocase (nocase name) db.users ≡ some u
      → create_user nocase none (ok hash) now name password db ≡ (err user_exists, db)
  unfolding create_user new_user
  create_user-taken hash now name password u db h k taken = ground arith

  -- A slug that a user has and no instance is called available, and a request to provision it is
  -- refused because of that user: where the slug is a valid one and not reserved, nothing is going
  -- on for it, there is a free place, the request gives no user name of its own, the password has
  -- between 8 and 72 bytes, and neither a statement nor the hash fails.
  pub check_slug_taken :
      (now : ℕ) (hash : String) (req : ProvisionRequest) (u : UserRow) (s : Server)
      → is_valid_slug req.slug ≡ true
      → is_in_flight req.slug reserved_slugs ≡ false
      → is_in_flight req.slug s.in_flight ≡ false
      → Rows.find req.slug s.db.instances ≡ none
      → check_place {A = ProvisionResponse} c none none req.slug (failure 409 "slug_taken") s.db
        ≡ none
      → find_user nocase (nocase req.slug) s.db.users ≡ some u
      → req.username ≡ ""
      → 8 ≤ len req.password
      → len req.password ≤ 72
      → (handle_check_slug none req.slug s
          ≡ reply 200 (record { slug = req.slug; available = true; reason = "" }))
        × ((handle_provision nocase c none none none (ok hash) now (some req) s).0
            ≡ failure 409 "user_exists")
  unfolding handle_check_slug handle_provision Instances.get cause
  check_slug_taken now hash req u s valid free idle no_row place taken no_name long short =
      let p = refused-none req valid free no_name long short in
      let q =
        create_user-taken hash now req.slug req.password u s.db (valid-not_empty req.slug valid)
          (not_empty req.password (ground arith)) taken in
      (ground arith, rw (p, handle_provision, idle, place, q) refl)
