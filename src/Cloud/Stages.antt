-- ===== src/Cloud/Stages.antt =====
-- What each statement of the methods of `UserStore` keeps of the users' table, and what a write of
-- the registry keeps of the foreign keys.
use fox_fleet.Prelude.{
  ℕ, ◌≡◌, ◌≢◌, refl, ap, String, Option, none, some, List, if_pos, if_neg, string_discrete, arith,
  true, Bool-cases, Option-cases, Result-cases, inl, inr, Result, ok, err, Error,
}
use fox_fleet.Config.{is_empty}
use fox_fleet.Registry.Rows.{Row, delete_where}
use fox_fleet.Registry.Rows
use fox_fleet.Registry.Writes.{
  Write, creates, sets_status, sets_digest, sets_token, deletes, apply, target, effect, apply-error,
  apply-refines,
}
use fox_fleet.Cloud.Rows.{UserRow, Session, Db, refers, set_password, set_instance, touch}
use fox_fleet.Cloud.Users.{
  UpdateErrors, to_null, assign, change_password, change_instance, touch_if, updated_users,
}
use fox_fleet.Cloud.Invariant.{Good, Good-keep, Good-assign}

module _ (nocase : String → String) where
  pub assign-Good :
      (key : String) (i : Option String) (now : ℕ) (db : Db) (us : List UserRow)
      {us' : List UserRow}
      → assign nocase key i now db us ≡ ok us'
      → Good nocase db.instances db.sessions us
      → Good nocase db.instances db.sessions us'
  unfolding assign
  assign-Good key i now db us h g = ground (
    arith,
    Good-assign nocase key i (set_instance i now) db.instances db.sessions us (λ u. (refl, refl)),
  )

  change_password-Good :
      (fault : Option Error) (hashed : Result String) (now : ℕ) (key : String)
      (password : Option String) (rows : List Row) (ss : List Session) (us : List UserRow)
      {us' : List UserRow}
      → change_password nocase fault hashed now key password us ≡ ok us'
      → Good nocase rows ss us
      → Good nocase rows ss us'
  unfolding change_password
  change_password-Good fault hashed now key none rows ss us h g = ground arith
  change_password-Good none (ok hash) now key (some p) rows ss us h g =
      ground (arith, Good-keep nocase key (set_password hash now) rows ss us (λ u. (refl, refl)) g)
  change_password-Good (some e) (ok hash) now key (some p) rows ss us h g =
      elim (Bool-cases (is_empty p)) [ inl q ↦ ground arith | inr q ↦ ground arith ]
  change_password-Good fault (err e) now key (some p) rows ss us h g =
      elim (Bool-cases (is_empty p)) [ inl q ↦ ground arith | inr q ↦ ground arith ]

  change_instance-Good :
      (fault : Option Error) (now : ℕ) (key : String) (id : Option String) (db : Db)
      (us : List UserRow) {us' : List UserRow}
      → change_instance nocase fault now key id db us ≡ ok us'
      → Good nocase db.instances db.sessions us
      → Good nocase db.instances db.sessions us'
  unfolding change_instance
  change_instance-Good fault now key none db us h g = ground arith
  change_instance-Good (some e) now key (some id) db us h g = ground arith
  change_instance-Good none now key (some id) db us h g =
      elim (Result-cases (assign nocase key (to_null id) now db us)) [
        | inl (vs, p) ↦ assign-Good key (to_null id) now db us (ground arith) g
        | inr (e, p) ↦ absurd (ground arith)
      ]

  touch_if-Good :
      (fault : Option Error) (now : ℕ) (key : String) (password id : Option String)
      (rows : List Row) (ss : List Session) (us : List UserRow) {us' : List UserRow}
      → touch_if nocase fault now key password id us ≡ ok us'
      → Good nocase rows ss us
      → Good nocase rows ss us'
  unfolding touch_if
  touch_if-Good none now key none none rows ss us h g =
      ground (arith, Good-keep nocase key (touch now) rows ss us (λ u. (refl, refl)) g)
  touch_if-Good (some e) now key none none rows ss us h g = ground arith
  touch_if-Good fault now key (some p) id rows ss us h g = ground arith
  touch_if-Good fault now key none (some id) rows ss us h g = ground arith

  pub updated_users-Good :
      (f : UpdateErrors) (hashed : Result String) (now : ℕ) (username : String)
      (password id : Option String) (db : Db) {us' : List UserRow}
      → updated_users nocase f hashed now username password id db ≡ ok us'
      → Good nocase db.instances db.sessions db.users
      → Good nocase db.instances db.sessions us'
  unfolding updated_users
  updated_users-Good f hashed now username password id db h g =
      let key = nocase username in
      let p = change_password nocase f.password hashed now key password db.users in
      elim (Result-cases p) [
        | inr (e, x) ↦ absurd (ground arith)
        | inl (vs, x) ↦
            elim (Result-cases (change_instance nocase f.instance_id now key id db vs)) [
              | inr (e, y) ↦ absurd (ground arith)
              | inl (ws, y) ↦
                  touch_if-Good f.touch now key password id db.instances db.sessions ws
                    (ground arith)
                    (change_instance-Good f.instance_id now key id db vs y (
                      change_password-Good f.password hashed now key password db.instances
                        db.sessions db.users x g))
            ]
      ]

-- A write that is no deletion leaves every row under its id.
abbrev Grows : (Option Row → Option Row) → Type 0
Grows f = (r : Row) → (x : Row) × (f (some r) ≡ some x)

pub effect-Grows :
    (sha256_hex : String → String) (w : Write)
    → ((id : String) → w ≢ deletes id)
    → Grows (effect sha256_hex w)
effect-Grows sha256_hex (creates now i) n r = (_, refl)
effect-Grows sha256_hex (sets_status id status) n r = (_, refl)
effect-Grows sha256_hex (sets_digest id digest) n r = (_, refl)
effect-Grows sha256_hex (sets_token id token) n r = (_, refl)
effect-Grows sha256_hex (deletes id) n r = absurd (n id refl)

find-apply :
    (sha256_hex : String → String) (fault : Option Error) (w : Write) (rows rows' : List Row)
    (j : String)
    → ((id : String) → w ≢ deletes id)
    → apply sha256_hex fault w rows ≡ (ok tt, rows')
    → Rows.find j rows ≢ none
    → Rows.find j rows' ≢ none
find-apply sha256_hex fault w rows rows' j n h f =
    let q = apply-refines sha256_hex fault w rows j h in
    elim (string_discrete (target sha256_hex w) j) [
      | no p ↦ rw (q, if_neg _ p) f
      | yes p ↦ elim (Option-cases (Rows.find j rows)) [
        | inl z ↦ absurd (f z)
        | inr (r, z) ↦ rw (q, if_pos _ p, p, z, (effect-Grows sha256_hex w n r).1) (ground arith)
      ]
    ]

pub apply-refers :
    (sha256_hex : String → String) (fault : Option Error) (w : Write) (rows : List Row)
    → ((id : String) → w ≢ deletes id)
    → (i : Option String) → refers i rows ≡ true
    → refers i ((apply sha256_hex fault w rows).1) ≡ true
unfolding refers
apply-refers sha256_hex fault w rows n none h = refl
apply-refers sha256_hex fault w rows n (some j) h =
    elim (Result-cases ((apply sha256_hex fault w rows).0)) [
      | inr (e, p) ↦
          rw
            (apply-error sha256_hex fault w rows
              (ap (λ a. (a, (apply sha256_hex fault w rows).1)) p))
            h
      | inl (tt, p) ↦ ground (
        arith,
        find-apply sha256_hex fault w rows _ j n
            (ap (λ a. (a, (apply sha256_hex fault w rows).1)) p),
      )
    ]
