-- ===== src/Provisioner/Undone.antt =====
-- What `Provision` leaves after an error behind the reservation: the rollback, from the world to which
-- the calls before it have led.
use fox_fleet.Prelude.{
  ℕ, zero, suc, ◌≡◌, refl, ap, ◌∙◌, ◌⊎◌, inl, inr, String, Option, some, none, List, [], ◌∷◌, Bool,
  true, false, Result, ok, err, Error, arith, Bool-cases, Result-cases,
}
use fox_fleet.Machine.{State, pure, ◌>>=◌, ◌>>◌, act, attempt, writes}
use fox_fleet.Config.{is_empty}
use fox_fleet.Registry.Rows.{Row, find, delete_where}
use fox_fleet.Registry.Instances
use fox_fleet.Registry.Instances.{update_status}
use fox_fleet.Provisioner.Defs.{Settings, Request, Outside, Effect, P}
use fox_fleet.Provisioner.Service.{rollback, or_undo, copy_skillset, retry_update_status}
use fox_fleet.Provisioner.Calls.{
  Calls, Calls-trans, no_calls, more, one_call, sql_call, read_call, write_call, remove_call,
  destroy_call,
}
use fox_fleet.Provisioner.Deploy.{}

module _ {W : Type 0} (o : Outside W) (c : Settings) where
  -- A run from the world `start` to the world `end` in which a statement has failed: by its calls it
  -- has come to the world `at`, where the SQL engine has not executed the statement, and with that
  -- the run has ended.
  pub record SqlFails (start end : W) : Type 0 where
    pub at : W
    pub error : Error
    pub calls : Calls o start at
    pub fails : (o.sql_error at).0 ≡ some error
    pub last : (o.sql_error at).1 ≡ end

  delete_where-absent :
      (id : String) (rows : List Row) → find id rows ≡ none → delete_where id rows ≡ rows
  unfolding delete_where find
  delete_where-absent id [] h = refl
  delete_where-absent id (r ∷ rows) h = ground (arith, delete_where-absent id rows)

  pub delete-cases :
      (fault : Option Error) (id : String) (rows : List Row)
      → ((Instances.delete fault id rows).1 ≡ delete_where id rows)
        ⊎ ((x : Error) × (fault ≡ some x) × ((Instances.delete fault id rows).1 ≡ rows))
  unfolding Instances.delete
  delete-cases (some x) id rows = inr (x, refl, refl)
  delete-cases none id rows = inl (ground (arith, delete_where-absent id rows))

  -- The reservation has been removed by the last statement, unless that has failed.
  abbrev pub Undone : String → State W Effect → State W Effect → Type 0
  Undone id s t =
      (x : W) × Calls o s.world x
      × (t.rows ≡ (Instances.delete (o.sql_error x).0 id s.rows).1)
      × ((o.sql_error x).1 ≡ t.world)

  rollback-Undone :
      (id dir : String) (d : Bool) (s : State W Effect) → Undone id s (rollback o c id dir d s).1
  unfolding rollback
  rollback-Undone id dir true s =
      let w = (o.plugin.destroy id s.world).1 in
      let calls = more _ _ _ (one_call o _ _ (destroy_call id s.world)) (remove_call dir w) in
      (_, calls, refl, refl)
  rollback-Undone id dir false s = (_, one_call o _ _ (remove_call dir s.world), refl, refl)

  -- A step: it goes on with the table as it was, or has been undone.
  abbrev pub Steps : {A : Type 0} → String → State W Effect → Result A × State W Effect → Type 0
  Steps id s (ok a, t) = Calls o s.world t.world × (t.rows ≡ s.rows)
  Steps id s (err e, t) = Undone id s t

  -- The last step: where it fails, it has been undone.
  abbrev pub Ends : {A : Type 0} → String → State W Effect → Result A × State W Effect → Type 0
  Ends id s (ok a, t) = Unit {0}
  Ends id s (err e, t) = Undone id s t

  Undone-after :
      (id : String) (s t u : State W Effect)
      → Calls o s.world t.world
      → t.rows ≡ s.rows
      → Undone id t u
      → Undone id s u
  Undone-after id s t u p e (x, q, r, l) = (
    x,
    Calls-trans o _ _ _ p q,
    r ∙ ap (λ rows. (Instances.delete (o.sql_error x).0 id rows).1) e,
    l,
  )

  Steps-after :
      {A : Type 0} (id : String) (s t : State W Effect) (r : Result A × State W Effect)
      → Calls o s.world t.world
      → t.rows ≡ s.rows
      → Steps id t r
      → Steps id s r
  Steps-after id s t (ok a, u) p e (q, f) = (Calls-trans o _ _ _ p q, f ∙ e)
  Steps-after id s t (err x, u) p e q = Undone-after id s t u p e q

  pub Ends-after :
      {A : Type 0} (id : String) (s t : State W Effect) (r : Result A × State W Effect)
      → Calls o s.world t.world
      → t.rows ≡ s.rows
      → Ends id t r
      → Ends id s r
  Ends-after id s t (ok a, u) p e q = tt
  Ends-after id s t (err x, u) p e q = Undone-after id s t u p e q

  Steps-then :
      {A B : Type 0} (id : String) (s : State W Effect) (k : A → P W B)
      (r : Result A × State W Effect)
      → Steps id s r
      → ((a : A) (t : State W Effect) → Steps id t (k a t))
      → Steps id s (◌>>=◌ (λ _. r) k s)
  Steps-then id s k (ok a, t) p h = Steps-after id s t (k a t) p.0 p.1 (h a t)
  Steps-then id s k (err e, t) p h = p

  pub Ends-then :
      {A B : Type 0} (id : String) (s : State W Effect) (k : A → P W B)
      (r : Result A × State W Effect)
      → Steps id s r
      → ((a : A) (t : State W Effect) → Ends id t (k a t))
      → Ends id s (◌>>=◌ (λ _. r) k s)
  Ends-then id s k (ok a, t) p h = Ends-after id s t (k a t) p.0 p.1 (h a t)
  Ends-then id s k (err e, t) p h = p

  -- A step whose error is undone.
  pub or_undo-Steps :
      {A : Type 0} (id dir : String) (d : Bool) (words : List String) (s : State W Effect)
      (r : Result A × State W Effect)
      → Calls o s.world r.1.world
      → r.1.rows ≡ s.rows
      → Steps id s (or_undo o c id dir d words (λ _. r) s)
  or_undo-Steps id dir d words s (ok a, t) p e = (p, e)
  or_undo-Steps id dir d words s (err x, t) p e =
      Undone-after id s t (rollback o c id dir d t).1 p e (rollback-Undone id dir d t)

  -- The last step, whose error is undone where it has left the table as it was.
  pub or_undo-Ends :
      {A B : Type 0} (id dir : String) (words : List String) (b : B) (s : State W Effect)
      (r : Result A × State W Effect)
      → Calls o s.world r.1.world
      → ((e : Error) → r.0 ≡ err e → r.1.rows ≡ s.rows)
      → Ends id s (◌>>=◌ (or_undo o c id dir true words (λ _. r)) (λ _. pure b) s)
  or_undo-Ends id dir words b s (ok a, t) p e = tt
  or_undo-Ends id dir words b s (err x, t) p e =
      Undone-after id s t (rollback o c id dir true t).1 p (e x refl)
        (rollback-Undone id dir true t)

  pub retry-Calls :
      (k : ℕ) (last : Error) (id status : String) (s : State W Effect)
      → Calls o s.world (retry_update_status o c k last id status s).1.world
  unfolding retry_update_status
  retry-Calls zero last id status s = no_calls s.world
  retry-Calls (suc k) last id status s =
      let q = writes o.sql_error (λ fault rows. update_status fault id status rows) s in
      let once = one_call o _ _ (sql_call s.world) in
      elim (Result-cases q.0) [
        | inl (_, p) ↦ rw (p, retry_update_status) once
        | inr (e, p) ↦
            rw (p, retry_update_status) (Calls-trans o _ _ _ once (retry-Calls k e id status q.1))
      ]

  pub copy_skillset-Steps :
      (req : Request) (dir : String) (s : State W Effect)
      → Steps req.instance_id s (copy_skillset o c req dir s)
  unfolding copy_skillset
  copy_skillset-Steps req dir s = elim (Bool-cases (is_empty req.skillset_path)) [
    | inl b ↦ rw b (no_calls s.world, refl)
    | inr b ↦
        let id = req.instance_id in
        let copy = λ (text : String).
          or_undo o c id dir false ("provisioner: copy skillset" ∷ [])
            (act (o.write_file (o.join (dir ∷ "skillset.yaml" ∷ [])) text)) in
        let found : P W String = pure "/data/skillset.yaml" in
        rw b (
          Steps-then id s (λ text. copy text >> found) _
            (or_undo-Steps id dir false _ s (attempt (o.read_file req.skillset_path) s)
              (one_call o _ _ (read_call _ s.world)) refl)
            λ text t.
              Steps-then id t (λ _. found) (copy text t)
                (or_undo-Steps id dir false _ t
                  (act (o.write_file (o.join (dir ∷ "skillset.yaml" ∷ [])) text) t)
                  (one_call o _ _ (write_call _ text t.world)) refl)
                (λ _ u. (no_calls u.world, refl)))
  ]
