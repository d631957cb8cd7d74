-- ===== src/Config/Reserved.antt =====
-- About the environment of an instance (internal/config/inject.go): which names an operator's own
-- entries may set, and what their values may spell.
use Prim.Native.String.{◌++◌}
use text.Mathlib.TextLemmas.{append_assoc}
use fox_fleet.Prelude.{
  ◌≡◌, ◌≢◌, refl, sym, ◌∙◌, String, none, List, [], ◌∷◌, true, false, string_discrete, ok, not,
  ◌||◌, Result-cases, Bool-cases, inl, inr, All, if_neg, arith, if◌then◌else◌, if_both,
}
use fox_fleet.Prelude.Maps.{
  lookup, set_value, set_values, lookup-set_other, lookup-set_others, lookup-others,
  lookup_sets_congr,
}
use fox_fleet.Config.{InjectParams, is_empty, cloud_env_vars}
use fox_fleet.Config.Environment.{
  reserved_keys, is_among, set_unless_empty, own_env, add_entries, hermes_env, env_text,
}

-- The keys of the entries pass the test for reserved ones.
abbrev Free : (String → String) → List (String × String) → Type 0
Free to_upper vs = All (λ e. is_among (to_upper e.0) reserved_keys ≡ false) vs

add_entries-ok :
    (to_upper : String → String) (vs env env' : List (String × String))
    → add_entries to_upper vs env ≡ ok env'
    → (env' ≡ set_values vs env) × Free to_upper vs
unfolding add_entries set_values
add_entries-ok to_upper [] env env' h = (cc, tt)
add_entries-ok to_upper ((k, v) ∷ vs) env env' h =
    elim (Bool-cases (is_among (to_upper k) reserved_keys)) [
      | inl b ↦ ground arith
      | inr b ↦
          let (e, f) = add_entries-ok to_upper vs (set_value k v env) env' (rw b at h) in
          (e, (b, f))
    ]

apart :
    (k k' : String) → is_among k reserved_keys ≡ false → is_among k' reserved_keys ≡ true → k' ≢ k
apart k k' h h' q = cc

-- What upper-casing leaves alone.
upper_fixed :
    (to_upper : String → String) (k : String) (rs : List String)
    → All (λ r. to_upper r ≡ r) rs
    → is_among k rs ≡ true
    → to_upper k ≡ k
unfolding is_among
upper_fixed to_upper k [] u h = cc
upper_fixed to_upper k (r ∷ rs) u h = elim (string_discrete k r) [
  | yes q ↦ cc
  | no n ↦ upper_fixed to_upper k rs u.1 (rw (if_neg (string_discrete k r) n) at h)
]

Free-apart :
    (to_upper : String → String) (k : String) (vs : List (String × String))
    → to_upper k ≡ k
    → is_among k reserved_keys ≡ true
    → Free to_upper vs
    → All (λ e. e.0 ≢ k) vs
Free-apart to_upper k [] u h f = tt
Free-apart to_upper k ((k', v) ∷ vs) u h f = (λ q. cc, Free-apart to_upper k vs u h f.1)

lookup-set_unless_empty :
    (k k' v : String) (m : List (String × String))
    → k' ≢ k
    → lookup k (set_unless_empty k' v m) ≡ lookup k m
lookup-set_unless_empty k k' v m d =
    if_both (λ x. lookup k x ≡ lookup k m) (is_empty v) refl (lookup-set_other k k' v m d)

lookup-own_env :
    (k : String) (p : InjectParams) → is_among k reserved_keys ≡ false → lookup k (own_env p) ≡ none
unfolding own_env is_among string_discrete
lookup-own_env k p h =
    let secret : "FOX_PLANE_AUTH_SECRET" ≢ k = apart k "FOX_PLANE_AUTH_SECRET" h refl in
    let password : "HERMES_WEBUI_PASSWORD" ≢ k = apart k "HERMES_WEBUI_PASSWORD" h refl in
    lookup-set_unless_empty k "FOX_SKILLSET_PATH" p.config.skillset_path _
      (apart k "FOX_SKILLSET_PATH" h refl)
    ∙ lookup-set_unless_empty k "FOX_DATA_PLANE_TOKEN" p.query_token _
        (apart k "FOX_DATA_PLANE_TOKEN" h refl)
    ∙ lookup-set_unless_empty k "FOX_DATA_PLANE_URL" p.config.data_plane_url _
        (apart k "FOX_DATA_PLANE_URL" h refl)
    ∙ lookup-others k _ (secret, (password, tt))

cloud-apart :
    (k : String) (p : InjectParams)
    → is_among k reserved_keys ≡ false
    → All (λ e. e.0 ≢ k) (cloud_env_vars p.cloud)
unfolding cloud_env_vars is_among string_discrete
cloud-apart k p h =
    if_both (All (λ (e : String × String). e.0 ≢ k))
      (not p.cloud.enabled || is_empty p.cloud.domain) tt
      (
        apart k "HERMES_WEBUI_ALLOWED_ORIGINS" h refl,
        (
          apart k "HERMES_WEBUI_TRUST_FORWARDED_HOST" h refl,
          (apart k "HERMES_WEBUI_CSP_CONNECT_EXTRA" h refl, tt),
        ),
      )

hermes_env-ok :
    (to_upper : String → String) (p : InjectParams) (env : List (String × String))
    → hermes_env to_upper p ≡ ok env
    → (env ≡ set_values (cloud_env_vars p.cloud) (set_values p.config.env (own_env p)))
      × Free to_upper p.config.env
unfolding hermes_env
hermes_env-ok to_upper p env h =
    elim (Result-cases (add_entries to_upper p.config.env (own_env p))) [
      | inl (m, e) ↦ let (q, f) = add_entries-ok to_upper p.config.env (own_env p) m e in (cc, f)
      | inr (x, e) ↦ ground arith
    ]

-- In the environment that is rendered an entry of the operator may have any key that is not
-- reserved, and has the value that the operator gave it last; under a reserved key there is what the
-- platform sets, if anything. It is supposed that the reserved keys are upper-case.
pub hermes_env-lookup :
    (to_upper : String → String) (p : InjectParams) (env : List (String × String)) (k : String)
    → All (λ r. to_upper r ≡ r) reserved_keys
    → hermes_env to_upper p ≡ ok env
    → lookup k env ≡ (
        if is_among k reserved_keys
        then lookup k (set_values (cloud_env_vars p.cloud) (own_env p))
        else lookup k (set_values p.config.env []))
hermes_env-lookup to_upper p env k u h =
    let (e, f) = hermes_env-ok to_upper p env h in
    elim (Bool-cases (is_among k reserved_keys)) [
      | inl b ↦
          let g : All (λ x. x.0 ≢ k) p.config.env =
            Free-apart to_upper k p.config.env (upper_fixed to_upper k reserved_keys u b) b f in
          rw (b, e)
            (lookup_sets_congr k (cloud_env_vars p.cloud) _ (own_env p)
              (lookup-set_others k p.config.env (own_env p) g))
      | inr b ↦
          rw (b, e)
            (lookup-set_others k (cloud_env_vars p.cloud) _ (cloud-apart k p b)
              ∙ lookup_sets_congr k p.config.env (own_env p) []
                  (lookup-own_env k p b ∙ sym (lookup-others k [] tt)))
    ]

-- A value that holds a quotation mark and the end of a line is rendered as several entries: the text
-- for the value `a"\nr="b` is the text for `a` with one more entry, whose key `r` may be any, a
-- reserved one too.
pub env_text-spelled :
    (k a r b : String) (es : List (String × String))
    → env_text ((k, a ++ "\"\n" ++ r ++ "=\"" ++ b) ∷ es) ≡ env_text ((k, a) ∷ (r, b) ∷ es)
unfolding env_text
env_text-spelled k a r b es = simp (append_assoc)
