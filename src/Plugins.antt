-- ===== src/Plugins.antt =====
-- plugins/plugin.go: what the control plane and a deployment target tell one another. The target
-- itself (Docker, Kubernetes) is outside: `DeploymentPlugin` is its interface over a state `W` of
-- the world, which each call may change. The contexts of the calls are not modelled.
use fox_fleet.Prelude.{ℕ, String, Option, List, Bool, Result, Error}

pub record ImageRef : Type 0 where
  pub repository : String
  pub digest : String

pub record InstanceConfig : Type 0 where
  pub auth_secret : String
  pub instance_password : String
  pub proxy_endpoint : String
  pub capability_flags : List (String × Bool)
  pub env : List (String × String)
  pub skillset_path : String
  pub data_plane_url : String
  pub principal_role : String

pub record ProvisionRequest : Type 0 where
  pub instance_id : String
  pub image : ImageRef
  pub config : InstanceConfig
  pub port : ℕ
  pub data_dir : String
  pub cloud_env : List (String × String)

pub record HealthStatus : Type 0 where
  pub healthy : Bool
  pub ready : Bool
  pub checks : List (String × Bool)
  pub checked_at : ℕ

-- The methods that the modelled callers use.
pub record DeploymentPlugin (W : Type 0) : Type 0 where
  pub provision : ProvisionRequest → W → Option Error × W
  pub health_check : String → W → Result HealthStatus × W
  pub rollout : String → ImageRef → W → Option Error × W
  pub rollback : String → ImageRef → W → Option Error × W
  pub destroy : String → W → Option Error × W
  pub restart : String → W → Option Error × W
