-- ===== src/Panel/Http.antt =====
-- panel/api/errors.go: what a handler answers. Headers but the cookie are left out, and of the body
-- of an error all but its code.
use fox_fleet.Prelude.{ℕ, String, Bool, true, false}

-- `reply` is writeJSON, `failure` writeError, `empty` a status without a body.
pub data Response (A : Type 0) : Type 0 where
  reply : ℕ → A → Response A
  failure : ℕ → String → Response A
  empty : ℕ → Response A

abbrev pub bad_request : {A : Type 0} → Response A
bad_request = failure 400 "bad_request"

abbrev pub internal_error : {A : Type 0} → Response A
internal_error = failure 500 "internal_error"

abbrev pub conflict : {A : Type 0} → Response A
conflict = failure 409 "conflict"

abbrev pub not_found_response : {A : Type 0} → Response A
not_found_response = failure 404 "not_found"

abbrev pub is_failure : {A : Type 0} → Response A → Bool
is_failure (failure status code) = true
is_failure _ = false
