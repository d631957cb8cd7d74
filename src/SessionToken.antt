-- ===== src/SessionToken.antt =====
-- internal/sessiontoken/token.go: the tokens that the panel signs. A byte is a number and a slice the
-- list of its bytes. HMAC-SHA256 is the argument `hmac`, which takes the key first, and base64 the
-- arguments `encode` and `decode`. Times are Unix seconds, from 1970 on.
pub mod RoundTrip
use fox_fleet.Prelude.{
  ℕ, zero, suc, ◌+◌, ◌*◌, ◌/◌, ◌%◌, ◌^◌, String, Option, none, some, List, [], ◌∷◌, ◌++◌, Bool,
  true, false, not, ◌&&◌, ◌==◌, ltb, length, take, drop, get_or, if◌then◌else◌, Result, ok, err,
  Error, wrap, invalid_token, expired_token, wrong_purpose,
}

abbrev pub purpose_sse : ℕ
purpose_sse = 1

abbrev pub payload_len : ℕ
payload_len = 25

abbrev pub token_len : ℕ
token_len = 57

-- `binary.BigEndian.PutUint64`, for `k` bytes.
unfoldable pub big_endian : ℕ → ℕ → List ℕ
big_endian zero n = []
big_endian (suc k) n = big_endian k (n / 256) ++ n % 256 ∷ []

-- `binary.BigEndian.Uint64`
unfoldable pub from_big_endian : ℕ → List ℕ → ℕ
from_big_endian acc [] = acc
from_big_endian acc (b ∷ bs) = from_big_endian (acc * 256 + b) bs

-- `hmac.Equal`
unfoldable pub same_bytes : List ℕ → List ℕ → Bool
same_bytes [] [] = true
same_bytes (b ∷ bs) (c ∷ cs) = b == c && same_bytes bs cs
same_bytes _ _ = false

-- `time.Now().Unix() > int64(expirySec)`: from 2^63 on the number is a negative one.
abbrev pub is_expired : ℕ → ℕ → Bool
is_expired now expiry = if ltb expiry (2 ^ 63) then ltb expiry now else true

unfoldable pub payload : ℕ → ℕ → List ℕ → List ℕ
payload purpose expiry nonce = purpose ∷ big_endian 8 (expiry % 2 ^ 64) ++ nonce

module _ (hmac : List ℕ → List ℕ → List ℕ) (encode : List ℕ → String)
    (decode : String → Option (List ℕ)) where
  -- The token and its expiry; `nonce` is what the system's random source gives.
  unfoldable pub generate : List ℕ → ℕ → ℕ → Result (List ℕ) → Result (String × ℕ)
  unfolding payload
  generate key purpose expiry (err e) = err (wrap ("sessiontoken: generate nonce" ∷ []) e)
  generate key purpose expiry (ok nonce) =
      let p = payload purpose expiry nonce in ok (encode (p ++ hmac key p), expiry)

  -- A token of the right length.
  unfoldable pub check : List ℕ → ℕ → ℕ → List ℕ → Result (Unit {0})
  unfolding same_bytes from_big_endian
  check key expected now raw =
      let p = take payload_len raw in
      if not (same_bytes (drop payload_len raw) (hmac key p))
      then err invalid_token
      else if not (get_or p 0 0 == expected)
      then err wrong_purpose
      else if is_expired now (from_big_endian 0 (take 8 (drop 1 p)))
      then err expired_token
      else ok tt

  unfoldable pub validate : List ℕ → String → ℕ → ℕ → Result (Unit {0})
  unfolding check
  validate key encoded expected now = elim (decode encoded) [
    | none ↦ err invalid_token
    | some raw ↦ if length raw == token_len then check key expected now raw else err invalid_token
  ]
