-- ===== src/Panel/Hosts.antt =====
-- panel/api/cloud_dispatch.go: which host a request is for.
use Prim.Native.Char.{}
use Prim.Native.String.{String, [], ◌∷◌, ◌++◌}
use mathlib.Core.Option
use fox_fleet.Prelude.{Bool, ◌&&◌, ◌||◌, ite, string_discrete, if◌then◌else◌, Option, none, some}
use fox_fleet.Config.{is_empty}
use fox_fleet.Panel.Names.{is_char, first_char, contains}

-- What stands before the last colon, where there is one.
unfoldable pub before_colon : String → Option String
before_colon [] = none
before_colon (c ∷ s) = elim (before_colon s) [
  | some t ↦ some (c ∷ t)
  | none ↦ if is_char b':' c then some [] else none
]

-- What stands up to the bracket of the last "]:", where there is one.
unfoldable pub up_to_bracket : String → Option String
up_to_bracket [] = none
up_to_bracket (c ∷ s) = elim (up_to_bracket s) [
  | some t ↦ some (c ∷ t)
  | none ↦ if is_char b']' c && first_char (is_char b':') s then some (c ∷ []) else none
]

abbrev or_all : String → Option String → String
or_all s none = s
or_all s (some t) = t

unfoldable pub strip_port : String → String
unfolding before_colon up_to_bracket
strip_port host =
    or_all host (if first_char (is_char b'[') host then up_to_bracket host else before_colon host)

-- `strings.TrimSuffix`, where the text has the suffix.
unfoldable pub trim_suffix : String → String → Option String
trim_suffix suffix [] = ite (string_discrete [] suffix) (some []) none
trim_suffix suffix (c ∷ s) =
    let rest = trim_suffix suffix s in
    ite (string_discrete (c ∷ s) suffix) (some []) (Option.map (λ t. c ∷ t) rest)

-- Where a request goes: to the panel's own handlers, to the instance of a subdomain, or nowhere.
pub data Route : Type 0 where
  panel : Route
  subdomain : String → Route
  invalid : Route

abbrev pub is_invalid_slug : String → Bool
is_invalid_slug slug = is_empty slug || contains slug "."

unfoldable pub route : String → String → Route
unfolding strip_port trim_suffix
route domain host_header =
    let host = strip_port host_header in
    ite (string_discrete host domain) panel (elim (trim_suffix ("." ++ domain) host) [
      | none ↦ panel
      | some slug ↦ if is_invalid_slug slug then invalid else subdomain slug
    ])
