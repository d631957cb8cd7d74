-- ===== src/Panel/Auth.antt =====
-- panel/api/auth.go and session_handler.go: what a request needs to get to the API and to the stream of
-- events. A header or a cookie that is absent is the empty text or none.
use Prim.Native.String.{len, slice}
use fox_fleet.Prelude.{
  ℕ, ◌+◌, String, Option, none, some, List, Bool, true, false, not, if◌then◌else◌, Result, ok, err,
}
use fox_fleet.SessionToken
use fox_fleet.SessionToken.{purpose_sse, generate}
use fox_fleet.Panel.Http.{Response, reply, bad_request, internal_error}
use fox_fleet.Panel.Login.{same_text, cookie_value}

unfoldable pub extract_token : String → String
extract_token header =
    if same_text (slice header 0 7) "Bearer " then slice header 7 (len header) else ""

-- Whether the request goes on. The comparison takes constant time in the source.
unfoldable pub require_auth : String → String → Bool
unfolding extract_token
require_auth secret header = same_text (extract_token header) secret

pub record SessionResponse : Type 0 where
  pub token : String
  pub expires_at : ℕ
  pub purpose : String

module _ (hmac : List ℕ → List ℕ → List ℕ) (encode : List ℕ → String)
    (decode : String → Option (List ℕ)) where
  abbrev is_valid : Result (Unit {0}) → Bool
  is_valid (ok _) = true
  is_valid (err _) = false

  -- Whether the stream of events is served, by the cookie `fox_sse_token`.
  unfoldable pub require_session_token : List ℕ → ℕ → Option String → Bool
  require_session_token key now cookie = elim (cookie_value cookie) [
    | none ↦ false
    | some token ↦ is_valid (SessionToken.validate hmac encode decode key token purpose_sse now)
  ]

  -- `ttl` is that of the server, or the default where it is 0; the token is also set as the cookie.
  unfoldable pub handle_session :
      List ℕ → ℕ → ℕ → Result (List ℕ) → Option String → Response SessionResponse
  handle_session key now ttl random none = bad_request
  handle_session key now ttl random (some purpose) =
      if not (same_text purpose "sse")
      then bad_request
      else (elim (generate hmac encode decode key purpose_sse (now + ttl) random) [
        | err e ↦ internal_error
        | ok (token, expiry) ↦
            reply 200 (record { token = token; expires_at = expiry; purpose = purpose })
      ])
