-- ===== src/Config.antt =====
-- internal/config/inject.go: what is injected into an instance before it starts. The check of the
-- secrets and what Cloud adds to the environment are here, the rest in the children: `Environment`
-- has the lines of `hermes.env`, `Inject` the files. The provisioner takes the injection as an
-- argument, as in the source.
pub mod Environment
pub mod Reserved
pub mod Inject
pub mod Written
use Prim.Native.String.{◌++◌}
use fox_fleet.Prelude.{
  String, List, [], ◌∷◌, Bool, true, false, not, ◌||◌, ite, string_discrete, Result, ok, err,
  message, if◌then◌else◌,
}
use fox_fleet.Plugins.{InstanceConfig}

pub record CloudConfig : Type 0 where
  pub enabled : Bool
  pub domain : String
  pub slug : String

pub record InjectParams : Type 0 where
  pub data_dir : String
  pub instance_password : String
  pub config : InstanceConfig
  pub query_token : String
  pub cloud : CloudConfig

abbrev pub is_empty : String → Bool
is_empty s = ite (string_discrete s "") true false

-- `origin` of `CloudEnvVars`.
unfoldable pub origin : CloudConfig → String
origin c = if is_empty c.slug then c.domain else c.slug ++ "." ++ c.domain

-- The map is the list of its entries, and `nil` the empty one.
unfoldable pub cloud_env_vars : CloudConfig → List (String × String)
unfolding origin
cloud_env_vars c =
    if not c.enabled || is_empty c.domain
    then []
    else ("HERMES_WEBUI_ALLOWED_ORIGINS", "https://" ++ origin c)
      ∷ ("HERMES_WEBUI_TRUST_FORWARDED_HOST", "true")
      ∷ ("HERMES_WEBUI_CSP_CONNECT_EXTRA", "https://" ++ origin c ++ " wss://" ++ origin c)
      ∷ []

unfoldable pub secret_errors : String → String → List String
secret_errors auth_secret instance_password =
    let rest = if is_empty instance_password then "instance_password is empty" ∷ [] else [] in
    if is_empty auth_secret then "admin_secret is empty" ∷ rest else rest

unfoldable pub refuse : List String → Result (Unit {0})
refuse [] = ok tt
refuse (e ∷ es) = err (message ("config: refusing to start" ∷ e ∷ es))

unfoldable pub validate_secrets : String → String → Result (Unit {0})
unfolding secret_errors refuse
validate_secrets auth_secret instance_password =
    refuse (secret_errors auth_secret instance_password)
