-- ===== src/Tests/Polls.antt =====
-- Runs of the health poller and of the signing keys.
use fox_fleet.Prelude.{◌≡◌, refl, none, [], ◌∷◌, true, false, ok, string_discrete}
use fox_fleet.Plugins.{}
use fox_fleet.Poller.{
  AutoRestartConfig, PollResult, Outside, State, restarts, check_one, lookup, restart,
}
use fox_fleet.Registry.Keys.{
  SigningKeys, TxErrors, rotate_signing_key, active_keys, add_key, deactivated, active_keys-rotate,
}
use fox_fleet.Tests.World.{target, Script}

abbrev world : Outside Script
world = record {
  plugin = target;
  sql_error = λ s. (none, s);
  now = λ s. (500, s);
  cancelled = λ s. (false, s);
  qdrant = none;
}

abbrev thrice : AutoRestartConfig
thrice = record { enabled = true; threshold = 3; cooldown = 100 }

abbrev sick : PollResult
sick = record {
  id = "fox-1";
  status = record { healthy = false; ready = false; checks = []; checked_at = 0 };
}

abbrev before : State Script
before = record {
  world = record { faults = []; answers = []; tokens = 0; target_up = true };
  poller = record {
    cache = [];
    qdrant_healthy = true;
    unhealthy_runs = ("fox-1", 2) ∷ [];
    last_restart = ("fox-1", 300) ∷ [];
  };
  trace = [];
}

third_time : (check_one world thrice sick before).trace ≡ restarts "fox-1" ∷ []
unfolding check_one restart lookup string_discrete
third_time = refl

abbrev no_errors : TxErrors
no_errors = record { begin = none; statement = none; insert = none; commit = none }

abbrev no_keys : SigningKeys
no_keys = record { rows = []; last_id = 0 }

abbrev one_key : SigningKeys
one_key = record {
  rows = record { id = 1; key = 7 ∷ []; active = true; created_at = 3 } ∷ [];
  last_id = 1;
}

active_keys-rotate_example :
    active_keys (rotate_signing_key no_errors (ok (9 ∷ [])) 4 one_key).1.rows ≡ (9 ∷ []) ∷ []
unfolding rotate_signing_key add_key deactivated
active_keys-rotate_example = active_keys-rotate no_errors (ok (9 ∷ [])) 4 one_key _ (9 ∷ []) refl
