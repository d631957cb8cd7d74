-- ===== src/Registry/Keys.antt =====
-- The signing keys of registry.go: the table `signing_keys`, the newest row first, which is the order
-- by its key. A transaction that does not commit leaves the table as it was. The errors of its
-- statements, the random bytes of a new key and the time are arguments.
use fox_fleet.Prelude.{
  ℕ, ◌+◌, ◌≡◌, refl, String, Option, none, some, List, [], ◌∷◌, Bool, true, false, Result, ok, err,
  Error, wrap, no_active_key, arith, if◌then◌else◌,
}

abbrev pub Key : Type 0
Key = List ℕ

pub record SigningKey : Type 0 where
  pub id : ℕ
  pub key : Key
  pub active : Bool
  pub created_at : ℕ

-- `last_id` is the sequence of AUTOINCREMENT.
pub record SigningKeys : Type 0 where
  pub rows : List SigningKey
  pub last_id : ℕ

-- The errors of a transaction, where it has one: of its beginning, of its first statement, of the
-- INSERT, of the commit.
pub record TxErrors : Type 0 where
  pub begin : Option Error
  pub statement : Option Error
  pub insert : Option Error
  pub commit : Option Error

-- WHERE active = 1, newest first.
unfoldable pub active_keys : List SigningKey → List Key
active_keys [] = []
active_keys (k ∷ ks) = let rest = active_keys ks in if k.active then k.key ∷ rest else rest

-- LIMIT 1
abbrev pub first_key : List Key → Option Key
first_key [] = none
first_key (k ∷ ks) = some k

unfoldable pub active_signing_key : Option Error → SigningKeys → Result Key
unfolding active_keys
active_signing_key (some e) s = err (wrap ("registry: active signing key" ∷ []) e)
active_signing_key none s = elim (first_key (active_keys s.rows)) [
  | none ↦ err no_active_key
  | some k ↦ ok k
]

abbrev with_key : Key → ℕ → SigningKeys → SigningKeys
with_key key now s =
    let id = s.last_id + 1 in
    record {
      rows = record { id = id; key = key; active = true; created_at = now } ∷ s.rows;
      last_id = id;
    }

-- The end of both transactions: the first table is the one before, the second the one that the
-- transaction has so far; the words are those of the errors of the INSERT and of the commit.
unfoldable pub add_key :
    String
    → String
    → TxErrors
    → Result Key
    → ℕ
    → SigningKeys
    → SigningKeys
    → Result Key × SigningKeys
add_key insert_words commit_words f (err e) now before s =
    (err (wrap ("registry: generate signing key" ∷ []) e), before)
add_key insert_words commit_words f (ok key) now before s = elim f.insert [
  | some e ↦ (err (wrap (insert_words ∷ []) e), before)
  | none ↦ elim f.commit [
    | some e ↦ (err (wrap (commit_words ∷ []) e), before)
    | none ↦ (ok key, with_key key now s)
  ]
]

unfoldable pub ensure_signing_key :
    TxErrors → Result Key → ℕ → SigningKeys → Result Key × SigningKeys
unfolding add_key active_keys
ensure_signing_key f random now s = elim f.begin [
  | some e ↦ (err (wrap ("registry: begin tx" ∷ []) e), s)
  | none ↦ elim f.statement [
    | some e ↦ (err (wrap ("registry: active signing key" ∷ []) e), s)
    | none ↦ elim (first_key (active_keys s.rows)) [
      | some k ↦ (ok k, s)
      | none ↦
          add_key "registry: insert signing key" "registry: commit signing key" f random now s s
    ]
  ]
]

-- UPDATE signing_keys SET active = 0
unfoldable pub deactivated : List SigningKey → List SigningKey
deactivated [] = []
deactivated (k ∷ ks) = record k { active = false } ∷ deactivated ks

unfoldable pub rotate_signing_key :
    TxErrors → Result Key → ℕ → SigningKeys → Result Key × SigningKeys
unfolding add_key
rotate_signing_key f random now s = elim f.begin [
  | some e ↦ (err (wrap ("registry: begin tx" ∷ []) e), s)
  | none ↦ elim f.statement [
    | some e ↦ (err (wrap ("registry: deactivate signing keys" ∷ []) e), s)
    | none ↦
        add_key "registry: insert rotated signing key" "registry: commit rotated signing key" f
          random now s (record s { rows = deactivated s.rows })
  ]
]

active_keys-deactivated : (ks : List SigningKey) → active_keys (deactivated ks) ≡ []
unfolding active_keys deactivated
active_keys-deactivated [] = refl
active_keys-deactivated (k ∷ ks) = active_keys-deactivated ks

-- The key that `EnsureSigningKey` gives is the active one of the table that it leaves, where the
-- query does not fail.
active_signing_key-ensure :
    (f : TxErrors) (random : Result Key) (now : ℕ) (s s' : SigningKeys) (k : Key)
    → ensure_signing_key f random now s ≡ (ok k, s')
    → active_signing_key none s' ≡ ok k
unfolding active_signing_key ensure_signing_key
active_signing_key-ensure f (err e) now s s' k h = ground arith
active_signing_key-ensure f (ok x) now s s' k h = ground arith

-- After a rotation that succeeds the new key is the only one that is active.
pub active_keys-rotate :
    (f : TxErrors) (random : Result Key) (now : ℕ) (s s' : SigningKeys) (k : Key)
    → rotate_signing_key f random now s ≡ (ok k, s')
    → active_keys s'.rows ≡ k ∷ []
unfolding rotate_signing_key active_keys
active_keys-rotate f (err e) now s s' k h = ground arith
active_keys-rotate f (ok x) now s s' k h = ground (arith, active_keys-deactivated s.rows)
