-- ===== src/Provisioner/Calls.antt =====
-- Which worlds a run of `Provision` comes through: the calls of the outside that it makes, one after
-- another.
use fox_fleet.Prelude.{
  ◌≡◌, sym, subst, Bool-cases, inl, inr, String, List, [], ◌∷◌, Result, ok, err, arith,
}
use fox_fleet.Machine.{State, attempt, wrapping}
use fox_fleet.Config.{InjectParams, is_empty}
use fox_fleet.Plugins.{ProvisionRequest}
use fox_fleet.Registry.Rows.{}
use fox_fleet.Registry.Instances.{}
use fox_fleet.Provisioner.Defs.{Settings, Request, Outside, Effect}
use fox_fleet.Provisioner.Service.{Reservation, reserve, skillset_name}

module _ {W : Type 0} (o : Outside W) where
  -- One call.
  pub data Call : W → W → Type 0 where
    sql_call : (w : W) → Call w (o.sql_error w).1
    now_call : (w : W) → Call w (o.now w).1
    token_call : (w : W) → Call w (o.random_token w).1
    skillset_call : (path : String) (w : W) → Call w (o.load_skillset path w).1
    mkdir_call : (path : String) (w : W) → Call w (o.mkdir_all path w).1
    read_call : (path : String) (w : W) → Call w (o.read_file path w).1
    write_call : (path text : String) (w : W) → Call w (o.write_file path text w).1
    remove_call : (path : String) (w : W) → Call w (o.remove_all path w).1
    config_call : (p : InjectParams) (w : W) → Call w (o.config_writer p w).1
    onboarding_call : (dir : String) (w : W) → Call w (o.mark_onboarding_complete dir w).1
    provision_call : (r : ProvisionRequest) (w : W) → Call w (o.plugin.provision r w).1
    destroy_call : (id : String) (w : W) → Call w (o.plugin.destroy id w).1

  -- Calls from one world to another.
  pub data Calls : W → W → Type 0 where
    no_calls : (w : W) → Calls w w
    more : (w v u : W) → Calls w v → Call v u → Calls w u

  pub Calls-trans : (w v u : W) → Calls w v → Calls v u → Calls w u
  Calls-trans w v u p (no_calls _) = p
  Calls-trans w v u p (more _ x _ q c) = more w x u (Calls-trans w v x p q) c

  pub one_call : (w v : W) → Call w v → Calls w v
  one_call w v c = more w w v (no_calls w) c

  -- The world that a reservation leaves: two reads, the clock, three tokens, and a write.
  abbrev after_reserve : W → W
  after_reserve w =
      let w1 = (o.sql_error (o.sql_error w).1).1 in
      let w2 = (o.now w1).1 in
      (o.sql_error (o.random_token (o.random_token (o.random_token w2).1).1).1).1

  reserve-world :
      (c : Settings) (req : Request) (name : String) (s s' : State W Effect) (r : Reservation)
      → reserve o c req name s ≡ (ok r, s')
      → s'.world ≡ after_reserve s.world
  unfolding reserve
  reserve-world c req name s s' r h = ground arith

  pub reserve-Calls :
      (c : Settings) (req : Request) (name : String) (s s' : State W Effect) (r : Reservation)
      → reserve o c req name s ≡ (ok r, s')
      → Calls s.world s'.world
  reserve-Calls c req name s s' r h =
      let reads = more _ _ _ (one_call _ _ (sql_call s.world)) (sql_call _) in
      let timed = more _ _ _ reads (now_call _) in
      let one = more _ _ _ timed (token_call _) in
      let two = more _ _ _ one (token_call _) in
      let three = more _ _ _ two (token_call _) in
      subst (Calls s.world) (sym (reserve-world c req name s s' r h))
        (more _ _ _ three (sql_call _))

  wrapping_answer :
      {A : Type 0} (words : List String) (s : State W Effect) (r : Result A × State W Effect)
      → Calls s.world r.1.world
      → Calls s.world (wrapping words (λ _. r) s).1.world
  wrapping_answer words s (ok a, t) p = p
  wrapping_answer words s (err e, t) p = p

  pub skillset_name-Calls :
      (c : Settings) (req : Request) (s : State W Effect)
      → Calls s.world (skillset_name o c req s).1.world
  unfolding skillset_name
  skillset_name-Calls c req s = elim (Bool-cases (is_empty req.skillset_path)) [
    | inl b ↦ rw b (no_calls s.world)
    | inr b ↦ rw b (
        wrapping_answer ("provisioner: validate skillset" ∷ []) s
          (attempt (o.load_skillset req.skillset_path) s)
          (one_call _ _ (skillset_call req.skillset_path s.world)))
  ]
