-- ===== src/Config/Environment.antt =====
-- `renderHermesEnv` of internal/config/inject.go: the environment of an instance as the lines of its
-- `hermes.env`. `to_upper` is `strings.ToUpper`.
use Prim.Native.Nat.{Ordering}
use Prim.Native.String.{◌++◌, compare}
use fox_fleet.Prelude.{
  String, List, [], ◌∷◌, Bool, true, false, ◌||◌, ite, string_discrete, Result, ok, err, message,
  if◌then◌else◌,
}
use fox_fleet.Prelude.Maps.{set_value, set_values}
use fox_fleet.Config.{InjectParams, is_empty, cloud_env_vars}

abbrev pub reserved_keys : List String
reserved_keys =
    "FOX_PLANE_AUTH_SECRET" ∷ "HERMES_WEBUI_PASSWORD" ∷ "FOX_DATA_PLANE_URL"
    ∷ "FOX_DATA_PLANE_TOKEN" ∷ "FOX_SKILLSET_PATH" ∷ "PATH" ∷ "HOME" ∷ "LD_PRELOAD"
    ∷ "LD_LIBRARY_PATH" ∷ "HERMES_WEBUI_ALLOWED_ORIGINS" ∷ "HERMES_WEBUI_TRUST_FORWARDED_HOST"
    ∷ "HERMES_WEBUI_CSP_CONNECT_EXTRA" ∷ []

unfoldable pub is_among : String → List String → Bool
is_among k [] = false
is_among k (r ∷ rs) = ite (string_discrete k r) true false || is_among k rs

-- `env[key] = value`, where the value is not empty.
abbrev pub set_unless_empty : String → String → List (String × String) → List (String × String)
set_unless_empty key v env = if is_empty v then env else set_value key v env

-- What the platform sets itself, before the entries of `Config.Env`.
unfoldable pub own_env : InjectParams → List (String × String)
own_env p = set_unless_empty "FOX_SKILLSET_PATH" p.config.skillset_path (
    set_unless_empty "FOX_DATA_PLANE_TOKEN" p.query_token (
      set_unless_empty "FOX_DATA_PLANE_URL" p.config.data_plane_url (
        ("FOX_PLANE_AUTH_SECRET", p.config.auth_secret)
        ∷ ("HERMES_WEBUI_PASSWORD", p.instance_password)
        ∷ [])))

-- The loop over `Config.Env`, in the order in which Go gives the entries.
unfoldable pub add_entries :
    (String → String)
    → List (String × String)
    → List (String × String)
    → Result (List (String × String))
add_entries to_upper [] env = ok env
add_entries to_upper ((k, v) ∷ vs) env =
    let rest = add_entries to_upper vs (set_value k v env) in
    if is_among (to_upper k) reserved_keys
    then err (message ("env key" ∷ k ∷ "is reserved and cannot be overridden" ∷ []))
    else rest

abbrev pub with_cloud :
    InjectParams → Result (List (String × String)) → Result (List (String × String))
with_cloud p (err e) = err e
with_cloud p (ok env) = ok (set_values (cloud_env_vars p.cloud) env)

-- The map `env` as it is when it is rendered.
unfoldable pub hermes_env : (String → String) → InjectParams → Result (List (String × String))
unfolding add_entries
hermes_env to_upper p = with_cloud p (add_entries to_upper p.config.env (own_env p))

abbrev is_greater : Ordering → Bool
is_greater Ordering.gt = true
is_greater Ordering.eq = false
is_greater Ordering.lt = false

unfoldable pub insert_entry : String × String → List (String × String) → List (String × String)
insert_entry e [] = e ∷ []
insert_entry e (x ∷ xs) =
    let rest = insert_entry e xs in if is_greater (compare e.0 x.0) then x ∷ rest else e ∷ x ∷ xs

-- `sort.Strings` on the keys, each with its value.
unfoldable pub sort_entries : List (String × String) → List (String × String)
unfolding insert_entry
sort_entries [] = []
sort_entries (x ∷ xs) = insert_entry x (sort_entries xs)

-- `%s="%s"\n`
abbrev pub env_line : String × String → String
env_line e = e.0 ++ "=\"" ++ e.1 ++ "\"\n"

unfoldable pub env_text : List (String × String) → String
env_text [] = ""
env_text (e ∷ es) = env_line e ++ env_text es

abbrev rendered : Result (List (String × String)) → Result String
rendered (err e) = err e
rendered (ok env) = ok (env_text (sort_entries env))

unfoldable pub render_hermes_env : (String → String) → InjectParams → Result String
unfolding hermes_env sort_entries env_text
render_hermes_env to_upper p = rendered (hermes_env to_upper p)
