-- ===== src/Rollout/Undo.antt =====
-- What the target has been asked for when the rollout of one instance ends, in rollout.go.
use fox_fleet.Prelude.{List, ◌∷◌, Error}
use fox_fleet.Plugins.{ImageRef}
use fox_fleet.Registry.Rows.{Instance}
use fox_fleet.Rollout.{
  InstanceResult, Effect, Reason, rolled_out_result, rolled_back_result, rolls_out, rolls_back,
  previous_of, rollout_error,
}

-- The result and the trace: an instance that is rolled out was asked to go to the target and not
-- back; one that is not was either refused by the target at once, or asked to go back to the image
-- it had.
pub data Traced (target : ImageRef) (i : Instance) (trace : List Effect)
    : InstanceResult → List Effect → Type 0 where
  confirmed : Traced target i trace (rolled_out_result target i) (rolls_out i.id target ∷ trace)
  refused :
      (e : Error)
      → Traced target i trace
          (rolled_back_result target i (rollout_error e))
          (rolls_out i.id target ∷ trace)
  undone :
      (reason : Reason)
      → Traced target i trace
          (rolled_back_result target i reason)
          (rolls_back i.id (previous_of target i) ∷ rolls_out i.id target ∷ trace)
