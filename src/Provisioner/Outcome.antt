-- ===== src/Provisioner/Outcome.antt =====
-- The whole of `Provision`: the two ways in which it can end.
use fox_fleet.Prelude.{
  ◌≤◌, ◌≡◌, refl, sym, ap, subst, ◌∙◌, String, none, List, [], ◌∷◌, ◌++◌, arith, length,
  length-append, ◌⊎◌, inl, inr, Result, ok, err, Result-cases, Error, wrap, map,
}
use fox_fleet.Machine.{State}
use fox_fleet.Config.{validate_secrets}
use fox_fleet.Registry.Rows.{Row, find, update, delete_where, set_status}
use fox_fleet.Registry.Instances.{hash_of}
use fox_fleet.Provisioner.Defs.{
  Settings, Request, Outside, Effect, Provisioned, allocate_port, max_port_scan,
}
use fox_fleet.Provisioner.Service.{Reservation, reserve, deploy, provision, skillset_name}
use fox_fleet.Provisioner.Ports.{IsFirstFree, allocate_port-first}
use fox_fleet.Provisioner.Reserve.{Reserved, reserve-Reserved, reserve-error}
use fox_fleet.Provisioner.Calls.{Calls, Calls-trans, reserve-Calls, skillset_name-Calls}
use fox_fleet.Provisioner.Deploy.{deploy-ok}
use fox_fleet.Provisioner.Undone.{SqlFails}
use fox_fleet.Provisioner.Failure.{deploy-error}

update-append :
    (id : String) (f : Row → Row) (rows : List Row) (x : Row)
    → find id rows ≡ none
    → x.id ≡ id
    → update id f (rows ++ x ∷ []) ≡ rows ++ f x ∷ []
unfolding update find
update-append id f [] x n e = ground arith
update-append id f (r ∷ rows) x n e = ground (arith, update-append id f rows x)

delete-append :
    (id : String) (rows : List Row) (x : Row)
    → find id rows ≡ none
    → x.id ≡ id
    → delete_where id (rows ++ x ∷ []) ≡ rows
unfolding delete_where find
delete-append id [] x n e = ground arith
delete-append id (r ∷ rows) x n e = ground (arith, delete-append id rows x)

module _ {W : Type 0} (o : Outside W) (c : Settings) where
  -- The row of a reservation.
  abbrev reserved_row : Reservation → Row
  reserved_row r = record {
    inst = r.inst;
    query_token_hash = hash_of o.sha256_hex r.inst.query_token;
  }

  -- A successful run: its row, and what the run saw when it reserved it.
  pub record Succeeds (req : Request) (rows rows' : List Row) (p : Provisioned) : Type 0 where
    pub row : Row
    pub appended : rows' ≡ rows ++ row ∷ []
    pub running : row.status ≡ "running"
    pub id_eq : row.id ≡ req.instance_id
    pub new : find req.instance_id rows ≡ none
    pub within_cap : length rows' ≤ c.max_instances
    pub port_eq : row.port ≡ p.port
    pub port_free : IsFirstFree (map (λ x. x.port) rows) c.port_range_start max_port_scan p.port

  skillset_name-rows :
      (req : Request) (s : State W Effect) → (skillset_name o c req s).1.rows ≡ s.rows
  unfolding skillset_name
  skillset_name-rows req s = ground arith

  -- The parts of a run.
  provision-parts :
      (req : Request) (s s' : State W Effect) (a : Result Provisioned)
      → provision o c req s ≡ (a, s')
      → ((e : Error) × (a ≡ err e) × (s'.rows ≡ s.rows))
        ⊎ ((name : String) × (t : State W Effect) × (u : State W Effect) × (r : Reservation)
            × (t.rows ≡ s.rows)
            × Calls o s.world t.world
            × (reserve o c req name t ≡ (ok r, u))
            × (deploy o c req r u ≡ (a, s')))
  unfolding provision
  provision-parts req s s' a h =
      elim (Result-cases (validate_secrets req.admin_secret req.instance_password)) [
        | inr (e, bad) ↦ inl (wrap ("provisioner" ∷ []) e, ground arith, ground arith)
        | inl (_, good) ↦
            let q = skillset_name o c req s in
            let same = skillset_name-rows req s in
            elim (Result-cases q.0) [
              | inr (e, bad) ↦ inl (e, ground arith, ground (arith, same))
              | inl (name, named) ↦
                  let u = reserve o c req name q.1 in
                  elim (Result-cases u.0) [
                    | inr (e, bad) ↦ inl (
                      e,
                      ground arith,
                      ground (arith, same, reserve-error o c req name q.1 u.1 e (ground arith)),
                    )
                    | inl (r, reserved) ↦ inr (
                      name,
                      q.1,
                      u.1,
                      r,
                      same,
                      skillset_name-Calls o c req s,
                      ground arith,
                      ground arith,
                    )
                  ]
            ]
      ]

  -- The table when a run from the world `start` to the world `end` has failed: as before, or, where
  -- its last call is a statement that has failed, with the reservation still in it.
  pub data Fails (req : Request) (rows rows' : List Row) (start end : W) : Type 0 where
    undone : rows' ≡ rows → Fails req rows rows' start end
    left_over :
        (row : Row)
        → row.id ≡ req.instance_id
        → rows' ≡ rows ++ row ∷ []
        → SqlFails o c start end
        → Fails req rows rows' start end

  succeeds :
      (req : Request) (rows reserved rows' : List Row) (p : Provisioned) (r : Reservation)
      → Reserved o c req rows reserved r
      → (rows' ≡ update req.instance_id (set_status "running") reserved)
        × (p.port ≡ r.inst.port)
        × (p.id ≡ req.instance_id)
      → (before : List Row) → rows ≡ before
      → Succeeds req before rows' p
  succeeds req rows reserved rows' p r v (e, port_eq, _) before same =
      let row = set_status "running" (reserved_row r) in
      let appended : rows' ≡ rows ++ row ∷ [] =
        e
        ∙ ap (update req.instance_id (set_status "running")) v.appended
        ∙ update-append req.instance_id (set_status "running") rows (reserved_row r) v.new
            v.id_eq in
      let port = allocate_port-first c (map (λ x. x.port) rows) v.port_found in
      let chosen : p.port ≡ allocate_port c (map (λ x. x.port) rows) = port_eq ∙ v.port_eq in
      subst (λ rs. Succeeds req rs rows' p) same
        (record {
          row = row;
          appended = appended;
          running = refl;
          id_eq = v.id_eq;
          new = v.new;
          within_cap = omega (arith, ap length appended, length-append rows (row ∷ []), v.room);
          port_eq = sym port_eq;
          port_free = rw chosen port;
        })

  fails :
      (req : Request) (rows reserved rows' : List Row) (start end : W) (r : Reservation)
      → Reserved o c req rows reserved r
      → (rows' ≡ delete_where req.instance_id reserved)
        ⊎ ((rows' ≡ reserved) × SqlFails o c start end)
      → (before : List Row) → rows ≡ before
      → Fails req before rows' start end
  fails req rows reserved rows' start end r v (inl gone) before same = undone (
      gone
      ∙ ap (delete_where req.instance_id) v.appended
      ∙ delete-append req.instance_id rows (reserved_row r) v.new v.id_eq
      ∙ same)
  fails req rows reserved rows' start end r v (inr (stays, failed)) before same =
      left_over (reserved_row r) v.id_eq
        (stays ∙ v.appended ∙ ap (λ rs. rs ++ reserved_row r ∷ []) same) failed

  -- A run that succeeds has appended one row, which is running, under a new id and on the first
  -- free port of the range, and the table is within the cap.
  pub provision-ok :
      (req : Request) (s s' : State W Effect) (p : Provisioned)
      → provision o c req s ≡ (ok p, s')
      → Succeeds req s.rows s'.rows p
  provision-ok req s s' p h = elim (provision-parts req s s' (ok p) h) [
    | inl (e, bad, _) ↦ cc
    | inr (name, t, u, r, same, calls, reserved, deployed) ↦
        let v = reserve-Reserved o c req name t u r reserved in
        succeeds req t.rows u.rows s'.rows p r v (deploy-ok o c req r u s' p deployed) s.rows same
  ]

  fails_after :
      {A B : Type 0} {w v end : W}
      → A ⊎ (B × SqlFails o c v end)
      → Calls o w v
      → A ⊎ (B × SqlFails o c w end)
  fails_after (inl a) p = inl a
  fails_after (inr (b, f)) p = inr (
    b,
    record {
      at = f.at;
      error = f.error;
      calls = Calls-trans o _ _ _ p f.calls;
      fails = f.fails;
      last = f.last;
    },
  )

  -- A run that fails has left the table as it was, or with one row of the requested id more, at its
  -- end; the latter only where its last call is an SQL statement that has failed, made in a world to
  -- which the calls before it have led from the start of the run.
  pub provision-error :
      (req : Request) (s s' : State W Effect) (e : Error)
      → provision o c req s ≡ (err e, s')
      → Fails req s.rows s'.rows s.world s'.world
  provision-error req s s' e h = elim (provision-parts req s s' (err e) h) [
    | inl (_, _, same) ↦ undone same
    | inr (name, t, u, r, same, calls, reserved, deployed) ↦
        let before = Calls-trans o _ _ _ calls (reserve-Calls o c req name t u r reserved) in
        fails req t.rows u.rows s'.rows s.world s'.world r
          (reserve-Reserved o c req name t u r reserved)
          (fails_after (deploy-error o c req r u s' e deployed) before) s.rows same
  ]
