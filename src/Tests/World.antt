-- ===== src/Tests/World.antt =====
-- A world for the tests: a clock that stands still, tokens that count up, and a script of the SQL
-- engine's errors with a log of its answers. Every other call succeeds, but for the deployment target's, which can be told to
-- fail.
use Prim.Native.String.{◌++◌}
use fox_fleet.Prelude.{
  ℕ, ◌+◌, String, Option, none, some, List, [], ◌∷◌, Bool, true, false, ok, Error, foreign, ◌==◌,
  if◌then◌else◌,
}
use fox_fleet.Plugins.{DeploymentPlugin}
use fox_fleet.Registry.Rows.{Instance, Row}
use fox_fleet.Provisioner.Defs.{Outside, Settings, Request}

pub record Script : Type 0 where
  pub faults : List (Option Error)
  -- newest first
  pub answers : List (Option Error)
  pub tokens : ℕ
  pub target_up : Bool

abbrev next_fault : Script → Option Error × Script
next_fault s = elim s.faults [
  | [] ↦ (none, record s { answers = none ∷ s.answers })
  | f ∷ fs ↦ (f, record s { faults = fs; answers = f ∷ s.answers })
]

abbrev target_answer : Script → Option Error × Script
target_answer s = (if s.target_up then none else some (foreign "no target"), s)

abbrev digit : ℕ → String
digit n = if n == 0 then "token-a" else if n == 1 then "token-b" else "token-c"

abbrev fine : Script → Option Error × Script
fine s = (none, s)

abbrev pub target : DeploymentPlugin Script
target = record {
  provision = λ _. target_answer;
  health_check =
      λ _ s. (ok (record { healthy = s.target_up; ready = true; checks = []; checked_at = 0 }), s);
  rollout = λ _ _. fine;
  rollback = λ _ _. fine;
  destroy = λ _. fine;
  restart = λ _. fine;
}

abbrev pub digest : String → String
digest s = "sha:" ++ s

abbrev pub outside : Outside Script
outside = record {
  plugin = target;
  sql_error = next_fault;
  now = λ s. (1000, s);
  random_token = λ s. (ok (digit s.tokens), record s { tokens = s.tokens + 1 });
  load_skillset = λ _ s. (ok "support", s);
  mkdir_all = λ _. fine;
  read_file = λ _ s. (ok "name: support", s);
  write_file = λ _ _. fine;
  remove_all = λ _. fine;
  config_writer = λ _. fine;
  mark_onboarding_complete = λ _. fine;
  join = λ parts. elim parts [ [] ↦ "" | p ∷ _ ↦ p ++ "/x" ];
  sha256_hex = digest;
}

abbrev pub settings : Settings
settings = record { data_root = "/srv"; port_range_start = 9100; max_instances = 3 }

abbrev pub request : Request
request = record {
  instance_id = "fox-2";
  admin_secret = "admin";
  instance_password = "pw";
  image = record { repository = "repo/fox"; digest = "sha256:1" };
  proxy_endpoint = "";
  capability_flags = [];
  env = [];
  skillset_path = "";
  data_plane_url = "";
  principal_role = "user";
  cloud = record { enabled = false; domain = ""; slug = "" };
}

-- An instance that runs on the first port.
abbrev pub first_instance : Instance
first_instance = record {
  id = "fox-1";
  image_digest = "sha256:0";
  port = 9100;
  data_dir = "/srv/instances/fox-1";
  status = "running";
  created_at = 900;
  skillset_name = "";
  principal_role = "";
  query_token = "token-z";
  plane_auth_token = "p";
  instance_password = "i";
}

abbrev pub first_row : Row
first_row = record { inst = first_instance; query_token_hash = "sha:token-z" }
