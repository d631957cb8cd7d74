-- ===== src/Config/Inject.antt =====
-- `Inject` of internal/config/inject.go and `MarkOnboardingComplete` of onboarding.go: the files that
-- an instance starts with.
use Prim.Native.String.{◌++◌}
use fox_fleet.Prelude.{
  ℕ, String, Option, none, some, List, [], ◌∷◌, Bool, true, false, ite, string_discrete, Result, ok,
  err, Error, message, wrap, if◌then◌else◌,
}
use fox_fleet.Config.{InjectParams, is_empty}
use fox_fleet.Config.Environment.{render_hermes_env}

-- The values of the maps that are marshalled.
pub data Value : Type 0 where
  text : String → Value
  number : ℕ → Value
  flags : List (String × Bool) → Value

pub record ToolParam : Type 0 where
  pub type_name : String
  pub required : Bool
  pub default : Option Value
  pub description : String

pub record ToolAuth : Type 0 where
  pub header : String
  pub env : String

pub record ToolDef : Type 0 where
  pub name : String
  pub description : String
  pub url : String
  pub method : String
  pub auth : Option ToolAuth
  pub parameters : List (String × ToolParam)

pub record Manifest : Type 0 where
  pub tools : List ToolDef

-- What is outside: the YAML library, `json.MarshalIndent`, `strings.ToUpper`, the joining of paths
-- and the file system, whose modes are numbers.
pub record Outside (W : Type 0) : Type 0 where
  pub marshal_yaml : List (String × Value) → Result String
  pub marshal_settings : List (String × Value) → Result String
  pub marshal_manifest : Manifest → Result String
  pub to_upper : String → String
  pub join : String → String → String
  pub dir : String → String
  pub base : String → String
  pub read_file : String → W → Result String × W
  pub mkdir_all : String → ℕ → W → Option Error × W
  pub write_file : String → String → ℕ → W → Option Error × W

abbrev entry_unless_empty : String → String → List (String × Value) → List (String × Value)
entry_unless_empty key v m = if is_empty v then m else (key, text v) ∷ m

abbrev entry_of_flags : List (String × Bool) → List (String × Value)
entry_of_flags [] = []
entry_of_flags (f ∷ fs) = ("capabilities", flags (f ∷ fs)) ∷ []

abbrev after_text : String → String → Result String → Result String
after_text head tail (err e) = err e
after_text head tail (ok bytes) = ok (head ++ bytes ++ tail)

abbrev pub query_parameters : List (String × ToolParam)
query_parameters =
    (
      "query",
      record {
        type_name = "string";
        required = true;
        default = none;
        description = "Search query text";
      },
    )
    ∷ (
      "top_k",
      record {
        type_name = "integer";
        required = false;
        default = some (number 5);
        description = "Maximum number of results to return";
      },
    )
    ∷ (
      "source_id",
      record {
        type_name = "string";
        required = false;
        default = none;
        description = "Filter results by source ID";
      },
    )
    ∷ []

abbrev pub knowledge_query : String → ToolDef
knowledge_query data_plane_url = record {
  name = "knowledge_query";
  description = "Search the knowledge base for relevant information";
  url = data_plane_url ++ "/v1/query";
  method = "POST";
  auth = some (record { header = "X-Fox-Auth"; env = "FOX_DATA_PLANE_TOKEN" });
  parameters = query_parameters;
}

module _ {W : Type 0} (o : Outside W) where
  abbrev pub render_config_yaml : InjectParams → Result String
  render_config_yaml p = after_text "# Managed by fox-control — do not edit manually.\n" "" (
      o.marshal_yaml (
        entry_unless_empty "proxy_endpoint" p.config.proxy_endpoint (
          entry_unless_empty "principal_role" p.config.principal_role
            (entry_of_flags p.config.capability_flags))))

  abbrev pub render_settings_json : InjectParams → Result String
  render_settings_json p = after_text "" "\n" (
      o.marshal_settings (
        entry_unless_empty "proxy_endpoint" p.config.proxy_endpoint
          (entry_of_flags p.config.capability_flags)))

  abbrev pub render_tools_json : InjectParams → Result String
  render_tools_json p = after_text "" "\n" (
      o.marshal_manifest (record {
        tools =
            if is_empty p.config.data_plane_url
            then []
            else knowledge_query p.config.data_plane_url ∷ [];
      }))

  abbrev pub after_mkdir : String → String → ℕ → Option Error × W → Option Error × W
  after_mkdir path bytes perm (some e, w) = (some e, w)
  after_mkdir path bytes perm (none, w) = o.write_file path bytes perm w

  -- `writeIfChanged`, when the file has been read
  abbrev pub after_read : String → String → ℕ → Result String × W → Option Error × W
  after_read path bytes perm (err _, w) =
      after_mkdir path bytes perm (o.mkdir_all (o.dir path) 0o755 w)
  after_read path bytes perm (ok existing, w) =
      let written = after_mkdir path bytes perm (o.mkdir_all (o.dir path) 0o755 w) in
      ite (string_discrete existing bytes) (none, w) written

  abbrev pub write_if_changed : String → String → ℕ → W → Option Error × W
  write_if_changed path bytes perm w = after_read path bytes perm (o.read_file path w)

  pub record Writer : Type 0 where
    pub path : String
    pub fn : InjectParams → Result String
    pub perm : ℕ

  abbrev pub writers : InjectParams → List Writer
  writers p =
      record {
        path = o.join (o.join p.data_dir "config") "hermes.env";
        fn = render_hermes_env o.to_upper;
        perm = 0o600;
      }
      ∷ record { path = o.join p.data_dir "config.yaml"; fn = render_config_yaml; perm = 0o644 }
      ∷ record { path = o.join p.data_dir "settings.json"; fn = render_settings_json; perm = 0o644 }
      ∷ record { path = o.join p.data_dir "tools.json"; fn = render_tools_json; perm = 0o600 }
      ∷ []

  -- What comes after a write, where it succeeds.
  abbrev pub after_write : String → (W → Option Error × W) → Option Error × W → Option Error × W
  after_write path next (some e, w) = (some (wrap ("config: write" ∷ o.base path ∷ []) e), w)
  after_write path next (none, w) = next w

  abbrev pub write_rendered : Writer → (W → Option Error × W) → Result String → W → Option Error × W
  write_rendered x next (err e) w = (some (wrap ("config: render" ∷ o.base x.path ∷ []) e), w)
  write_rendered x next (ok bytes) w =
      after_write x.path next (write_if_changed x.path bytes x.perm w)

  unfoldable pub write_files : List Writer → InjectParams → W → Option Error × W
  write_files [] p w = (none, w)
  write_files (x ∷ xs) p w = write_rendered x (write_files xs p) (x.fn p) w

  unfoldable pub inject : InjectParams → W → Option Error × W
  unfolding write_files
  inject p w =
      if is_empty p.config.auth_secret
      then (some (message ("config: auth_secret must not be empty" ∷ [])), w)
      else if is_empty p.instance_password
      then (some (message ("config: instance_password must not be empty" ∷ [])), w)
      else write_files (writers p) p w

  abbrev after_config_dir : String → Option Error × W → Option Error × W
  after_config_dir dir (some e, w) = (some e, w)
  after_config_dir dir (none, w) =
      o.write_file (o.join dir "onboarding.json") "{\"completed\":true}\n" 0o644 w

  unfoldable pub mark_onboarding_complete : String → W → Option Error × W
  mark_onboarding_complete data_dir w =
      let dir = o.join data_dir "config" in after_config_dir dir (o.mkdir_all dir 0o755 w)
