-- ===== src/Prelude/Errors.antt =====
-- Go's errors as values, and the result of a call that may fail.
use Prim.Native.String.{String}
use mathlib.Core.List.{List}
use mathlib.Core.Path.{◌≡◌, refl}
use mathlib.Core.Logic.{◌⊎◌, inl, inr}
use mathlib.Core.Bool.{Bool, true, false}

-- `wrap` is `fmt.Errorf` with `%w`: the words of the message, the error within last. `foreign` is
-- an error of the outside: the SQL engine, the deployment target, the file system.
pub data Error : Type 0 where
  not_found cap_reached port_exhausted no_active_key : Error
  user_not_found user_exists invalid_credentials session_not_found : Error
  invalid_token expired_token wrong_purpose : Error
  foreign : String → Error
  message : List String → Error
  wrap : List String → Error → Error

-- What is left when the wrapping is taken off, as `errors.Is` looks for it.
unfoldable pub cause : Error → Error
cause (wrap w e) = cause e
cause e = e

pub data Result {ℓ} (A : Type ℓ) : Type ℓ where
  ok : A → Result A
  err : Error → Result A

abbrev pub is_ok {ℓ} : {A : Type ℓ} → Result A → Bool
is_ok (ok a) = true
is_ok (err e) = false

pub Result-cases {ℓ} :
    {A : Type ℓ} (a : Result A) → ((x : A) × (a ≡ ok x)) ⊎ ((e : Error) × (a ≡ err e))
Result-cases (ok x) = inl (x, refl)
Result-cases (err e) = inr (e, refl)
