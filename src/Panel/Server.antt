-- ===== src/Panel/Server.antt =====
-- panel/api/server.go: the state that the handlers share. The guard `inFlight` is the list of its ids;
-- `jobs` are the goroutines that provision in the background and the upgrades that are going on.
use fox_fleet.Prelude.{
  ℕ, ◌+◌, String, List, [], ◌∷◌, Bool, true, false, not, ite, string_discrete, if◌then◌else◌,
}
use fox_fleet.Plugins.{ImageRef}
use fox_fleet.Config.{is_empty}
use fox_fleet.Provisioner.Defs.{Request}
use fox_fleet.Cloud.Rows.{Db}

-- What a goroutine still has to do for the instance of its id.
pub data Task : Type 0 where
  creating : Request → String → Task
  provisioning : Request → String → Task
  upgrading : ImageRef → String → Task

pub record Job : Type 0 where
  pub id : String
  pub task : Task

-- An event of the log: its kind and its instance.
pub record Emitted : Type 0 where
  pub kind : String
  pub instance_id : String

-- The settings of `Server` that the handlers read.
pub record Settings : Type 0 where
  pub secret : String
  pub instance_pwd : String
  pub image : ImageRef
  pub data_plane_url : String
  pub default_skillset : String
  pub default_role : String
  pub max_instances : ℕ
  pub domain : String
  pub has_users : Bool
  pub has_events : Bool

pub record Server : Type 0 where
  pub db : Db
  pub in_flight : List String
  pub jobs : List Job
  pub emitted : List Emitted
  pub provisions : ℕ

-- The request to the provisioner, as both handlers that provision put it together.
abbrev pub provisioner_request : Settings → String → String → String → String → Request
provisioner_request c id skillset role slug = record {
  instance_id = id;
  admin_secret = c.secret;
  instance_password = c.instance_pwd;
  image = c.image;
  proxy_endpoint = "";
  capability_flags = [];
  env = [];
  skillset_path = skillset;
  data_plane_url = c.data_plane_url;
  principal_role = role;
  cloud = record { enabled = not (is_empty c.domain); domain = c.domain; slug = slug };
}

-- `s.inFlight[id]`
unfoldable pub is_in_flight : String → List String → Bool
is_in_flight id [] = false
is_in_flight id (i ∷ is) = let rest = is_in_flight id is in ite (string_discrete i id) true rest

-- `delete(s.inFlight, id)`
unfoldable pub clear : String → List String → List String
clear id [] = []
clear id (i ∷ is) = let rest = clear id is in ite (string_discrete i id) rest (i ∷ rest)

abbrev pub set_in_flight : String → Server → Server
set_in_flight id s = record s { in_flight = id ∷ s.in_flight }

abbrev pub clear_in_flight : String → Server → Server
clear_in_flight id s = record s { in_flight = clear id s.in_flight }

-- A goroutine starts, and one has ended.
abbrev pub spawn : Job → Server → Server
spawn j s = record s { jobs = j ∷ s.jobs }

unfoldable pub without_job : String → List Job → List Job
without_job id [] = []
without_job id (j ∷ js) =
    let rest = without_job id js in ite (string_discrete j.id id) rest (j ∷ rest)

abbrev pub job_done : String → Server → Server
job_done id s = record s { jobs = without_job id s.jobs }

-- `s.events.Emitf`, where there is a log.
abbrev pub emit : Settings → String → String → Server → Server
emit c kind id s = record s {
  emitted =
      if c.has_events then record { kind = kind; instance_id = id } ∷ s.emitted else s.emitted;
}

abbrev pub inc_provisions : Server → Server
inc_provisions s = record s { provisions = s.provisions + 1 }

abbrev pub with_db : Server → Db → Server
with_db s db = record s { db = db }
