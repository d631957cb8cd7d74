-- ===== src/Rollout/Digests.antt =====
-- A report of rollout.go that is OK, against the registry.
use fox_fleet.Prelude.{ℕ, ◌≡◌, String, List, [], ◌∷◌, true, map, arith, ◌⊎◌, inl, ok, All}
use fox_fleet.Plugins.{ImageRef}
use fox_fleet.Registry.Rows.{Instance, Row, update, order_by_time}
use fox_fleet.Machine.{State}
use fox_fleet.Provisioner.Defs.{has_id}
use fox_fleet.Provisioner.Reserve.{has_id-order}
use fox_fleet.Rollout.{InstanceResult, Report, Settings, Outside, Effect, execute, all_rolled_out}
use fox_fleet.Rollout.Shape.{
  Shape, finished, success, failure, cancelled, to_target, execute-Shape, round, checked,
}

-- Every row has the digest, or its instance is still to come.
abbrev Pending : String → List Instance → List Row → Type 0
Pending digest is rows = All (λ r. (has_id r.id is ≡ true) ⊎ (r.image_digest ≡ digest)) rows

Pending-round :
    (target : ImageRef) (i : Instance) (is : List Instance) (rows : List Row)
    → Pending target.digest (i ∷ is) rows
    → Pending target.digest is (to_target target i rows)
unfolding update has_id
Pending-round target i is [] a = tt
Pending-round target i is (r ∷ rows) a = ground (arith, Pending-round target i is rows a.1)

abbrev HasDigest : String → List Row → Type 0
HasDigest digest rows = All (λ r. r.image_digest ≡ digest) rows

Pending-none : (digest : String) (rows : List Row) → Pending digest [] rows → HasDigest digest rows
unfolding has_id
Pending-none digest [] a = tt
Pending-none digest (r ∷ rows) a = (ground arith, Pending-none digest rows a.1)

Shape-HasDigest :
    {W : Type 0} (o : Outside W) (c : Settings) (fuel : ℕ) (target : ImageRef) (is : List Instance)
    (rs : List InstanceResult) (s s' : State W Effect)
    → Shape o c fuel target is rs s s'
    → all_rolled_out rs ≡ true
    → Pending target.digest is s.rows
    → HasDigest target.digest s'.rows
unfolding all_rolled_out
Shape-HasDigest o c fuel target is rs s s' (finished _) h a = Pending-none target.digest s.rows a
Shape-HasDigest o c fuel target is rs s s' (success i js qs _ _ go good e rest) h a =
    Shape-HasDigest o c fuel target js qs (round o c fuel target i (checked o c fuel target s)) s'
      rest h (rw e (Pending-round target i js s.rows a))
Shape-HasDigest o c fuel target is rs s s' (failure i js reason _ go bad e) h a = cc
Shape-HasDigest o c fuel target is rs s s' (cancelled i js _ stop) h a = cc

Pending-weaken :
    (digest : String) (i : Instance) (is : List Instance) (rows : List Row)
    → Pending digest is rows
    → Pending digest (i ∷ is) rows
unfolding has_id
Pending-weaken digest i is [] a = tt
Pending-weaken digest i is (r ∷ rows) a = (ground arith, Pending-weaken digest i is rows a.1)

Pending-all : (digest : String) (rows : List Row) → Pending digest (map (λ r. r.inst) rows) rows
unfolding has_id
Pending-all digest [] = tt
Pending-all digest (r ∷ rows) = (
  inl (ground arith),
  Pending-weaken digest r.inst (map (λ x. x.inst) rows) rows (Pending-all digest rows),
)

Pending-order :
    (digest : String) (rows all : List Row)
    → Pending digest (map (λ r. r.inst) all) rows
    → Pending digest (map (λ r. r.inst) (order_by_time all)) rows
Pending-order digest [] all a = tt
Pending-order digest (r ∷ rows) all a =
    (rw (has_id-order r.id all) a.0, Pending-order digest rows all a.1)

-- Where the report is OK, every instance in the registry has the target's digest.
pub execute-HasDigest :
    {W : Type 0} (o : Outside W) (c : Settings) (fuel : ℕ) (target : ImageRef)
    (s s' : State W Effect) (report : Report)
    → execute o c fuel target s ≡ (ok report, s')
    → all_rolled_out report.instances ≡ true
    → All (λ r. r.image_digest ≡ target.digest) s'.rows
execute-HasDigest o c fuel target s s' report h good =
    Shape-HasDigest o c fuel target _ report.instances _ s'
      (execute-Shape o c fuel target s s' report h).1 good
      (Pending-order target.digest s.rows s.rows (Pending-all target.digest s.rows))
