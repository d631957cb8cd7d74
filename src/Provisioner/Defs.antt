-- ===== src/Provisioner/Defs.antt =====
-- internal/provisioner/provisioner.go: the service's settings, what it uses of the outside, and the
-- choice of a port.
use fox_fleet.Prelude.{
  ℕ, zero, suc, ◌+◌, ◌-◌, String, Option, List, [], ◌∷◌, Bool, true, false, ite, ◌==◌,
  if◌then◌else◌, string_discrete, ℕ_discrete, Result, Error,
}
use fox_fleet.Prelude.Int.{pos, pos_part, wrap_int}
use fox_fleet.Plugins.{ImageRef, ProvisionRequest, DeploymentPlugin}
use fox_fleet.Config.{CloudConfig, InjectParams}
use fox_fleet.Registry.Rows.{Instance}
use fox_fleet.Machine.{M}

pub record Request : Type 0 where
  pub instance_id : String
  pub admin_secret : String
  pub instance_password : String
  pub image : ImageRef
  pub proxy_endpoint : String
  pub capability_flags : List (String × Bool)
  pub env : List (String × String)
  pub skillset_path : String
  pub data_plane_url : String
  pub principal_role : String
  pub cloud : CloudConfig

-- `Instance` of the package.
pub record Provisioned : Type 0 where
  pub id : String
  pub port : ℕ
  pub data_dir : String
  pub status : String
  pub created_at : ℕ

-- The service's settings, after the defaults of `New`.
pub record Settings : Type 0 where
  pub data_root : String
  pub port_range_start : ℕ
  pub max_instances : ℕ

abbrev default_max_instances : ℕ
default_max_instances = 10

abbrev default_port_range_start : ℕ
default_port_range_start = 9100

abbrev pub max_port_scan : ℕ
max_port_scan = 1000

abbrev pub registry_retries : ℕ
registry_retries = 3

-- A setting of zero is replaced by its default.
unfoldable pub with_defaults : Settings → Settings
with_defaults o = record o {
  port_range_start =
      if o.port_range_start == 0 then default_port_range_start else o.port_range_start;
  max_instances = if o.max_instances == 0 then default_max_instances else o.max_instances;
}

pub record Outside (W : Type 0) : Type 0 where
  pub plugin : DeploymentPlugin W
  -- the SQL engine's error, if the next statement fails
  pub sql_error : W → Option Error × W
  pub now : W → ℕ × W
  -- 32 random bytes as unpadded base64url
  pub random_token : W → Result String × W
  -- the name in a skillset file that is valid
  pub load_skillset : String → W → Result String × W
  pub mkdir_all : String → W → Option Error × W
  pub read_file : String → W → Result String × W
  pub write_file : String → String → W → Option Error × W
  pub remove_all : String → W → Option Error × W
  pub config_writer : InjectParams → W → Option Error × W
  pub mark_onboarding_complete : String → W → Option Error × W
  pub join : List String → String
  pub sha256_hex : String → String

-- What the service has asked of the outside, newest first.
pub data Effect : Type 0 where
  provisions : ProvisionRequest → Effect
  destroys : String → Effect
  removes_data : String → Effect

abbrev pub P : Type 0 → Type 0 → Type 0
P W A = M W Effect A

unfoldable pub contains : ℕ → List ℕ → Bool
contains p [] = false
contains p (q ∷ qs) = ite (ℕ_discrete q p) true (contains p qs)

unfoldable pub has_id : String → List Instance → Bool
has_id id [] = false
has_id id (i ∷ is) = ite (string_discrete i.id id) true (has_id id is)

-- The first of `k` ports from `p` on that is not used, or 0.
unfoldable pub scan_ports : List ℕ → ℕ → ℕ → ℕ
scan_ports used p zero = 0
scan_ports used p (suc k) =
    let rest = scan_ports used (p + 1) k in if contains p used then rest else p

-- The rounds of the scan: `portRangeStart+maxPortScan` is an `int`, and where it has wrapped around
-- there are none.
unfoldable pub scan_length : ℕ → ℕ
unfolding wrap_int
scan_length start = pos_part (wrap_int (pos (start + max_port_scan))) - start

unfoldable pub allocate_port : Settings → List ℕ → ℕ
unfolding scan_ports scan_length
allocate_port c used = scan_ports used c.port_range_start (scan_length c.port_range_start)
