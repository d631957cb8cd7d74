-- ===== src/SessionToken/RoundTrip.antt =====
-- A token that is generated is accepted for its purpose until it expires.
use fox_fleet.Prelude.{
  ℕ, zero, suc, ◌+◌, ◌*◌, ◌/◌, ◌%◌, ◌^◌, ◌<◌, ◌≡◌, refl, sym, ap, ◌∙◌, String, Option, some, List,
  [], ◌∷◌, ◌++◌, true, not, ◌==◌, ltb, length, length-append, take, drop, get_or, arith,
  if◌then◌else◌, Result, ok, err, expired_token, wrong_purpose,
}
use fox_fleet.SessionToken.{
  big_endian, from_big_endian, same_bytes, payload, generate, check, validate,
}

-- The number has at most so many bytes.
abbrev Fits : ℕ → ℕ → Type 0
Fits zero n = n ≡ 0
Fits (suc k) n = Fits k (n / 256)

from-append :
    (acc b : ℕ) (bs : List ℕ)
    → from_big_endian acc (bs ++ b ∷ []) ≡ from_big_endian acc bs * 256 + b
unfolding from_big_endian
from-append acc b [] = refl
from-append acc b (c ∷ bs) = from-append (acc * 256 + c) b bs

from-big_endian : (k n : ℕ) → Fits k n → from_big_endian 0 (big_endian k n) ≡ n
unfolding from_big_endian big_endian
from-big_endian zero n h = sym h
from-big_endian (suc k) n h =
    from-append 0 (n % 256) (big_endian k (n / 256)) ∙ omega (arith, from-big_endian k (n / 256) h)

length-big_endian : (k n : ℕ) → length (big_endian k n) ≡ k
unfolding big_endian
length-big_endian zero n = refl
length-big_endian (suc k) n =
    length-append (big_endian k (n / 256)) (n % 256 ∷ [])
    ∙ omega (arith, length-big_endian k (n / 256))

take-append : (n : ℕ) (xs ys : List ℕ) → length xs ≡ n → take n (xs ++ ys) ≡ xs
take-append zero [] ys h = refl
take-append (suc n) [] ys h = absurd (omega arith)
take-append zero (x ∷ xs) ys h = absurd (omega arith)
take-append (suc n) (x ∷ xs) ys h = ap (λ l. x ∷ l) (take-append n xs ys (omega arith))

drop-append : (n : ℕ) (xs ys : List ℕ) → length xs ≡ n → drop n (xs ++ ys) ≡ ys
drop-append zero [] ys h = refl
drop-append (suc n) [] ys h = absurd (omega arith)
drop-append zero (x ∷ xs) ys h = absurd (omega arith)
drop-append (suc n) (x ∷ xs) ys h = drop-append n xs ys (omega arith)

same_bytes_self : (bs : List ℕ) → same_bytes bs bs ≡ true
unfolding same_bytes
same_bytes_self [] = refl
same_bytes_self (b ∷ bs) = ground (arith, same_bytes_self bs)

module _ (hmac : List ℕ → List ℕ → List ℕ) (encode : List ℕ → String)
    (decode : String → Option (List ℕ)) where
  -- What a token is answered by, from its purpose and its expiry.
  abbrev pub verdict : ℕ → ℕ → ℕ → ℕ → Result (Unit {0})
  verdict purpose expiry expected now =
      if not (purpose == expected)
      then err wrong_purpose
      else if ltb expiry now
      then err expired_token
      else ok tt

  length-payload :
      (purpose expiry : ℕ) (nonce : List ℕ)
      → length nonce ≡ 16
      → length (payload purpose expiry nonce) ≡ 25
  unfolding payload
  length-payload purpose expiry nonce h = omega (
    arith,
    length-append (big_endian 8 (expiry % 2 ^ 64)) nonce,
    length-big_endian 8 (expiry % 2 ^ 64),
  )

  payload-purpose :
      (purpose expiry : ℕ) (nonce : List ℕ) → get_or (payload purpose expiry nonce) 0 0 ≡ purpose
  unfolding payload
  payload-purpose purpose expiry nonce = refl

  payload-expiry :
      (purpose expiry : ℕ) (nonce : List ℕ)
      → expiry < 2 ^ 63
      → from_big_endian 0 (take 8 (drop 1 (payload purpose expiry nonce))) ≡ expiry
  unfolding payload
  payload-expiry purpose expiry nonce small =
      let e = expiry % 2 ^ 64 in
      ap (from_big_endian 0) (take-append 8 (big_endian 8 e) nonce (length-big_endian 8 e))
      ∙ from-big_endian 8 e (omega arith)
      ∙ omega arith

  check-payload :
      (key nonce : List ℕ) (purpose expiry expected now : ℕ)
      → length nonce ≡ 16
      → expiry < 2 ^ 63
      → check hmac encode decode key expected now
          (payload purpose expiry nonce ++ hmac key (payload purpose expiry nonce))
        ≡ verdict purpose expiry expected now
  unfolding check
  check-payload key nonce purpose expiry expected now h small =
      let p = payload purpose expiry nonce in
      let s = hmac key p in
      let n = length-payload purpose expiry nonce h in
      rw
        (
          take-append 25 p s n,
          drop-append 25 p s n,
          same_bytes_self s,
          payload-purpose purpose expiry nonce,
          payload-expiry purpose expiry nonce small,
          check,
        )
        (ground arith)

  -- A token that is generated is answered by its purpose and its expiry alone: another purpose is
  -- refused, and so is a time later than the expiry. The random source gives 16 bytes, HMAC-SHA256
  -- gives 32, what base64 has encoded it decodes, and the expiry is less than 2^63 seconds.
  pub validate-generate :
      (key nonce : List ℕ) (purpose expiry expected now e : ℕ) (token : String)
      → length nonce ≡ 16
      → ((m : List ℕ) → length (hmac key m) ≡ 32)
      → ((bs : List ℕ) → decode (encode bs) ≡ some bs)
      → expiry < 2 ^ 63
      → generate hmac encode decode key purpose expiry (ok nonce) ≡ ok (token, e)
      → validate hmac encode decode key token expected now ≡ verdict purpose expiry expected now
  unfolding generate validate
  validate-generate key nonce purpose expiry expected now e token h m d small g =
      let p = payload purpose expiry nonce in
      let raw = p ++ hmac key p in
      let n : length raw ≡ 57 =
        length-append p (hmac key p) ∙ omega (arith, length-payload purpose expiry nonce h, m p) in
      let t : token ≡ encode raw = ground arith in
      rw (t, d raw, n, validate) (check-payload key nonce purpose expiry expected now h small)
