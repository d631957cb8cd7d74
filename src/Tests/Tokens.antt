-- ===== src/Tests/Tokens.antt =====
-- A signed token, with a signature that never changes and a base64 that writes a byte as so many
-- letters `a` before a `b`.
use Prim.Native.Char.{code}
use Prim.Native.String.{String, [], ◌∷◌}
use fox_fleet.Prelude.{
  ℕ, zero, suc, ◌+◌, ◌≡◌, refl, ap, ◌∙◌, Option, some, List, length, replicate, ◌++◌, ◌==◌, arith,
  ok, err, expired_token, if◌then◌else◌,
}
use fox_fleet.Prelude
use fox_fleet.SessionToken.{payload, generate, validate}
use fox_fleet.SessionToken.RoundTrip.{validate-generate}

abbrev letters : ℕ → String → String
letters zero s = s
letters (suc n) s = "a" ∷ letters n s

abbrev encode : List ℕ → String
encode Prelude.[] = []
encode (Prelude.◌∷◌ n bs) = letters n ("b" ∷ encode bs)

abbrev decode_from : ℕ → String → List ℕ
decode_from acc [] = Prelude.[]
decode_from acc (c ∷ s) =
    let rest = decode_from 0 s in
    let more = decode_from (acc + 1) s in if code c == 98 then Prelude.◌∷◌ acc rest else more

abbrev decode : String → Option (List ℕ)
decode s = some (decode_from 0 s)

decode_from-letters :
    (acc n : ℕ) (s : String) → decode_from acc (letters n s) ≡ decode_from (acc + n) s
decode_from-letters acc zero s = ap (λ k. decode_from k s) (omega arith)
decode_from-letters acc (suc n) s =
    decode_from-letters (acc + 1) n s ∙ ap (λ k. decode_from k s) (omega arith)

decode-encode : (bs : List ℕ) → decode_from 0 (encode bs) ≡ bs
decode-encode Prelude.[] = refl
decode-encode (Prelude.◌∷◌ n bs) =
    let same : 0 + n ≡ n = omega arith in
    decode_from-letters 0 n ("b" ∷ encode bs)
    ∙ ap (λ k. decode_from k ("b" ∷ encode bs)) same
    ∙ ap (Prelude.◌∷◌ n) (decode-encode bs)

abbrev hmac : List ℕ → List ℕ → List ℕ
hmac key m = replicate 32 7

abbrev nonce : List ℕ
nonce = replicate 16 3

abbrev token : String
token = encode (payload 1 100 nonce ++ replicate 32 7)

validate-generate_example : validate hmac encode decode nonce token 1 101 ≡ err expired_token
unfolding generate payload
validate-generate_example =
    validate-generate hmac encode decode nonce nonce 1 100 1 101 100 token refl (λ m. refl)
      (λ bs. ap some (decode-encode bs)) (omega arith) refl
