-- ===== src/Tests/Injects.antt =====
-- Runs of the injection of the files that an instance starts with.
use Prim.Native.String.{◌++◌}
use fox_fleet.Prelude.{
  ◌≡◌, refl, sym, ap, String, Option, some, none, List, [], ◌∷◌, ite, true, Result, ok, err,
  message, string_discrete, All, if◌then◌else◌,
}
use fox_fleet.Prelude.Maps.{lookup, set_value, set_values, lookup-set_same, lookup-set_other}
use fox_fleet.Config.{InjectParams, cloud_env_vars, origin}
use fox_fleet.Config.Environment.{
  hermes_env, own_env, add_entries, is_among, reserved_keys, env_text, sort_entries, insert_entry,
  render_hermes_env,
}
use fox_fleet.Config.Reserved.{hermes_env-lookup, env_text-spelled}
use fox_fleet.Config.Inject.{Outside, inject, write_files, writers}
use fox_fleet.Config.Written.{Keeps, Written, Distinct, inject-Written}

program : Unit {0}
unfolding lookup set_value set_values cloud_env_vars origin hermes_env own_env add_entries is_among
    env_text sort_entries insert_entry render_hermes_env inject write_files string_discrete
program = tt

abbrev params : InjectParams
params = record {
  data_dir = "/srv/fox";
  instance_password = "pw";
  config = record {
    auth_secret = "secret";
    instance_password = "";
    proxy_endpoint = "http://proxy";
    capability_flags = [];
    env = ("TZ", "UTC") ∷ ("lang", "C") ∷ ("TZ", "CET") ∷ [];
    skillset_path = "";
    data_plane_url = "";
    principal_role = "user";
  };
  query_token = "";
  cloud = record { enabled = true; domain = "fox.io"; slug = "ada" };
}

abbrev upper : String → String
upper s = ite (string_discrete s "lang") "LANG" s

abbrev environment : List (String × String)
environment =
    ("FOX_PLANE_AUTH_SECRET", "secret")
    ∷ ("HERMES_WEBUI_PASSWORD", "pw")
    ∷ ("TZ", "CET")
    ∷ ("lang", "C")
    ∷ ("HERMES_WEBUI_ALLOWED_ORIGINS", "https://ada.fox.io")
    ∷ ("HERMES_WEBUI_TRUST_FORWARDED_HOST", "true")
    ∷ ("HERMES_WEBUI_CSP_CONNECT_EXTRA", "https://ada.fox.io wss://ada.fox.io")
    ∷ []

run_environment : hermes_env upper params ≡ ok environment
unfolding program
run_environment = refl

run_text : env_text (sort_entries (("TZ", "CET") ∷ ("HOME", "/") ∷ [])) ≡ "HOME=\"/\"\nTZ=\"CET\"\n"
unfolding program
run_text = refl

hermes_env-lookup_example : lookup "TZ" environment ≡ (
    if is_among "TZ" reserved_keys
    then lookup "TZ" (set_values (cloud_env_vars params.cloud) (own_env params))
    else lookup "TZ" (set_values params.config.env []))
unfolding program
hermes_env-lookup_example =
    hermes_env-lookup upper params environment "TZ"
      (
        refl,
        (refl, (refl, (refl, (refl, (refl, (refl, (refl, (refl, (refl, (refl, (refl, tt))))))))))),
      )
      refl

env_text-spelled_example :
    env_text (("LANG", "C\"\nPATH=\"/tmp") ∷ []) ≡ "LANG=\"C\"\nPATH=\"/tmp\"\n"
unfolding program
env_text-spelled_example = env_text-spelled "LANG" "C" "PATH" "/tmp" []

-- A disk on which no call fails but the reading of a file that is not there.
abbrev Disk : Type 0
Disk = List (String × String)

abbrev contents : Option String → Result String
contents none = err (message ("no such file" ∷ []))
contents (some t) = ok t

abbrev disk : Outside Disk
disk = record {
  marshal_yaml = λ m. ok "yaml";
  marshal_settings = λ m. ok "settings";
  marshal_manifest = λ m. ok "tools";
  to_upper = upper;
  join = λ a b. a ++ "/" ++ b;
  dir = λ p. p;
  base = λ p. p;
  read_file = λ p w. (contents (lookup p w), w);
  mkdir_all = λ p m w. (none, w);
  write_file = λ p t m w. (none, set_value p t w);
}

contents-ok : (r : Option String) (t : String) → contents r ≡ ok t → r ≡ some t
contents-ok none t h = cc
contents-ok (some s) t h = cc

keeps : Keeps disk
keeps = record {
  content = lookup;
  read_same = λ p w. refl;
  read_content = λ p t w h. ap contents h;
  content_read = λ p t w h. contents-ok (lookup p w) t h;
  mkdir_keeps = λ q p m w. refl;
  write_content = λ p t m w h. lookup-set_same p t w;
  write_keeps = λ q p t m w d. lookup-set_other q p t w (λ e. d (sym e));
}

paths : Distinct disk keeps (writers disk params)
paths = (
  ((λ e. cc), ((λ e. cc), ((λ e. cc), tt))),
  (((λ e. cc), ((λ e. cc), tt)), (((λ e. cc), tt), (tt, tt))),
)

abbrev left : Disk
left = (inject disk params []).1

inject-Written_example :
    All (Written disk keeps params left) (writers disk params)
    × (inject disk params left ≡ (none, left))
unfolding program
inject-Written_example = inject-Written disk keeps params [] left paths refl
