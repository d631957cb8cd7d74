-- ===== src/Prelude/Maps.antt =====
-- Go's maps with texts for keys, as lists of their entries.
use Prim.Native.String.{String}
use mathlib.Core.Path.{◌≡◌, refl, sym, ◌∙◌}
use mathlib.Core.Logic.{◌≢◌, ite, if_pos, if_neg}
use mathlib.Core.Option.{Option, none, some}
use mathlib.Core.List.{List, [], ◌∷◌}
use fox_fleet.Prelude.Text.{string_discrete}
use fox_fleet.Prelude.Lists.{All}

module _ {ℓ} {A : Type ℓ} where
  -- `m[key]`
  unfoldable pub lookup : String → List (String × A) → Option A
  lookup key [] = none
  lookup key ((k, v) ∷ m) = let rest = lookup key m in ite (string_discrete k key) (some v) rest

  -- `m[key] = value`
  unfoldable pub set_value : String → A → List (String × A) → List (String × A)
  set_value key v [] = (key, v) ∷ []
  set_value key v ((k, x) ∷ m) =
      let rest = set_value key v m in ite (string_discrete k key) ((k, v) ∷ m) ((k, x) ∷ rest)

  -- `for k, v := range vs { m[k] = v }`
  unfoldable pub set_values : List (String × A) → List (String × A) → List (String × A)
  set_values [] m = m
  set_values ((k, v) ∷ vs) m = set_values vs (set_value k v m)

  pub lookup-set_same :
      (key : String) (v : A) (m : List (String × A)) → lookup key (set_value key v m) ≡ some v
  unfolding lookup set_value
  lookup-set_same key v [] = if_pos (string_discrete key key) refl (some v) none
  lookup-set_same key v ((k, x) ∷ m) = elim (string_discrete k key) [
    | yes e ↦ rw (if_pos (string_discrete k key) e, if_pos (string_discrete k key) e) refl
    | no n ↦
        rw (if_neg (string_discrete k key) n, if_neg (string_discrete k key) n)
          (lookup-set_same key v m)
  ]

  pub lookup-set_other :
      (key k' : String) (v : A) (m : List (String × A))
      → k' ≢ key
      → lookup key (set_value k' v m) ≡ lookup key m
  unfolding lookup set_value
  lookup-set_other key k' v [] d = if_neg (string_discrete k' key) d (some v) none
  lookup-set_other key k' v ((k, x) ∷ m) d = elim (string_discrete k k') [
    | yes e ↦
        let o : k ≢ key = λ q. d (sym e ∙ q) in
        rw
          (
            if_pos (string_discrete k k') e,
            if_neg (string_discrete k key) o,
            if_neg (string_discrete k key) o,
          )
          refl
    | no n ↦ elim (string_discrete k key) [
      | yes q ↦
          rw
            (
              if_neg (string_discrete k k') n,
              if_pos (string_discrete k key) q,
              if_pos (string_discrete k key) q,
            )
            refl
      | no z ↦
          rw
            (
              if_neg (string_discrete k k') n,
              if_neg (string_discrete k key) z,
              if_neg (string_discrete k key) z,
            )
            (lookup-set_other key k' v m d)
    ]
  ]

  -- Entries under other keys do not matter.
  pub lookup-set_others :
      (key : String) (vs m : List (String × A))
      → All (λ e. e.0 ≢ key) vs
      → lookup key (set_values vs m) ≡ lookup key m
  unfolding set_values
  lookup-set_others key [] m a = refl
  lookup-set_others key ((k, v) ∷ vs) m a =
      lookup-set_others key vs (set_value k v m) a.1 ∙ lookup-set_other key k v m a.0

  lookup_set_congr :
      (key k : String) (v : A) (m m' : List (String × A))
      → lookup key m ≡ lookup key m'
      → lookup key (set_value k v m) ≡ lookup key (set_value k v m')
  lookup_set_congr key k v m m' h = elim (string_discrete k key) [
    | yes e ↦ rw (e, lookup-set_same key v m, lookup-set_same key v m') refl
    | no n ↦ rw (lookup-set_other key k v m n, lookup-set_other key k v m' n) h
  ]

  pub lookup_sets_congr :
      (key : String) (vs m m' : List (String × A))
      → lookup key m ≡ lookup key m'
      → lookup key (set_values vs m) ≡ lookup key (set_values vs m')
  unfolding set_values
  lookup_sets_congr key [] m m' h = h
  lookup_sets_congr key ((k, v) ∷ vs) m m' h =
      lookup_sets_congr key vs (set_value k v m) (set_value k v m')
        (lookup_set_congr key k v m m' h)

  pub lookup-others :
      (key : String) (m : List (String × A)) → All (λ e. e.0 ≢ key) m → lookup key m ≡ none
  unfolding lookup
  lookup-others key [] a = refl
  lookup-others key ((k, x) ∷ m) a =
      if_neg (string_discrete k key) a.0 (some x) (lookup key m) ∙ lookup-others key m a.1
