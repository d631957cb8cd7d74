-- ===== src/Config/Written.antt =====
-- About `Inject` (internal/config/inject.go): the files that it leaves, and when it leaves them alone.
use fox_fleet.Prelude.{
  ℕ, ◌≡◌, ◌≢◌, refl, sym, ap, ◌∙◌, String, Option, none, some, List, [], ◌∷◌, Result, ok, err,
  Error, All, arith, string_discrete, if_pos, if_neg, Bool-cases, Result-cases, inl, inr,
}
use fox_fleet.Config.{InjectParams, is_empty}
use fox_fleet.Config.Inject.{
  Outside, Writer, writers, inject, write_files, write_if_changed, after_read, after_mkdir,
  after_write, write_rendered,
}

-- What the file system keeps, where nobody else writes: a file that is written has its bytes, and no
-- other file changes.
pub record Keeps {W : Type 0} (o : Outside W) : Type 0 where
  pub content : String → W → Option String
  pub read_same : (path : String) (w : W) → (o.read_file path w).1 ≡ w
  pub read_content :
      (path bytes : String) (w : W)
      → content path w ≡ some bytes
      → (o.read_file path w).0 ≡ ok bytes
  pub content_read :
      (path bytes : String) (w : W)
      → (o.read_file path w).0 ≡ ok bytes
      → content path w ≡ some bytes
  pub mkdir_keeps :
      (q path : String) (m : ℕ) (w : W) → content q (o.mkdir_all path m w).1 ≡ content q w
  pub write_content :
      (path bytes : String) (m : ℕ) (w : W)
      → (o.write_file path bytes m w).0 ≡ none
      → content path (o.write_file path bytes m w).1 ≡ some bytes
  pub write_keeps :
      (q path bytes : String) (m : ℕ) (w : W)
      → q ≢ path
      → content q (o.write_file path bytes m w).1 ≡ content q w

module _ {W : Type 0} (o : Outside W) (k : Keeps o) where
  -- The file holds what is rendered for it.
  abbrev pub Written : InjectParams → W → Writer o → Type 0
  Written p w x = (bytes : String) × ((x.fn p ≡ ok bytes) × (k.content x.path w ≡ some bytes))

  abbrev pub Distinct : List (Writer o) → Type 0
  Distinct [] = Unit
  Distinct (x ∷ xs) = All (λ y. x.path ≢ y.path) xs × Distinct xs

  after_mkdir-ok :
      (path bytes : String) (m : ℕ) (w w' : W) (r : Option Error × W)
      → ((q : String) → k.content q r.1 ≡ k.content q w)
      → after_mkdir o path bytes m r ≡ (none, w')
      → (k.content path w' ≡ some bytes)
        × ((q : String) → q ≢ path → k.content q w' ≡ k.content q w)
  after_mkdir-ok path bytes m w w' (some e, v) same h = ground arith
  after_mkdir-ok path bytes m w w' (none, v) same h =
      let e : (o.write_file path bytes m v).0 ≡ none = ap (λ r. r.0) h in
      let s : (o.write_file path bytes m v).1 ≡ w' = ap (λ r. r.1) h in
      (
        ap (k.content path) (sym s) ∙ k.write_content path bytes m v e,
        λ q d. ap (k.content q) (sym s) ∙ k.write_keeps q path bytes m v d ∙ same q,
      )

  after_read-ok :
      (path bytes : String) (m : ℕ) (w w' : W) (r : Result String × W)
      → o.read_file path w ≡ r
      → after_read o path bytes m r ≡ (none, w')
      → (k.content path w' ≡ some bytes)
        × ((q : String) → q ≢ path → k.content q w' ≡ k.content q w)
  after_read-ok path bytes m w w' (err x, v) e h =
      let s : v ≡ w = sym (ap (λ r. r.1) e) ∙ k.read_same path w in
      after_mkdir-ok path bytes m w w' (o.mkdir_all (o.dir path) 0o755 v)
        (λ q. k.mkdir_keeps q (o.dir path) 0o755 v ∙ ap (k.content q) s) h
  after_read-ok path bytes m w w' (ok existing, v) e h =
      let s : v ≡ w = sym (ap (λ r. r.1) e) ∙ k.read_same path w in
      elim (string_discrete existing bytes) [
        | yes q ↦
            let z : w' ≡ w =
              sym (ap (λ r. r.1) (sym (if_pos (string_discrete existing bytes) q _ _) ∙ h)) ∙ s in
            (
              ap (k.content path) z ∙ k.content_read path existing w (ap (λ r. r.0) e) ∙ ap some q,
              λ q' d. ap (k.content q') z,
            )
        | no n ↦
            after_mkdir-ok path bytes m w w' (o.mkdir_all (o.dir path) 0o755 v)
              (λ q. k.mkdir_keeps q (o.dir path) 0o755 v ∙ ap (k.content q) s)
              (rw (if_neg (string_discrete existing bytes) n) at h)
      ]

  after_write-ok :
      (path : String) (next : W → Option Error × W) (r : Option Error × W) (w' : W)
      → after_write o path next r ≡ (none, w')
      → (v : W) × ((r ≡ (none, v)) × (next v ≡ (none, w')))
  after_write-ok path next (some e, v) w' h = ground arith
  after_write-ok path next (none, v) w' h = (v, (refl, h))

  write_files-ok :
      (p : InjectParams) (xs : List (Writer o)) (w w' : W)
      → Distinct xs
      → write_files o xs p w ≡ (none, w')
      → All (Written p w') xs
        × ((q : String) → All (λ x. q ≢ x.path) xs → k.content q w' ≡ k.content q w)
  unfolding write_files
  write_files-ok p [] w w' d h = (tt, λ q a. ap (λ r. k.content q r.1) (sym h))
  write_files-ok p (x ∷ xs) w w' d h = elim (Result-cases (x.fn p)) [
    | inl (bytes, e) ↦
        let (v, (r, n)) =
          after_write-ok x.path (write_files o xs p) (write_if_changed o x.path bytes x.perm w) w'
            (rw e at h) in
        let (c, keep) = after_read-ok x.path bytes x.perm w v (o.read_file x.path w) refl r in
        let (a, keeps) = write_files-ok p xs v w' d.1 n in
        (((bytes, (e, keeps x.path d.0 ∙ c)), a), λ q b. keeps q b.1 ∙ keep q b.0)
    | inr (_, e) ↦ ground arith
  ]

  write_files-again :
      (p : InjectParams) (xs : List (Writer o)) (w : W)
      → All (Written p w) xs
      → write_files o xs p w ≡ (none, w)
  unfolding write_files
  write_files-again p [] w a = refl
  write_files-again p (x ∷ xs) w a =
      let (bytes, (e, c)) = a.0 in
      let unchanged : write_if_changed o x.path bytes x.perm w ≡ (none, w) =
        ap (after_read o x.path bytes x.perm)
          (λ i. (k.read_content x.path bytes w c i, k.read_same x.path w i))
        ∙ if_pos (string_discrete bytes bytes) refl _ _ in
      ap (λ r. write_rendered o x (write_files o xs p) r w) e
      ∙ ap (after_write o x.path (write_files o xs p)) unchanged
      ∙ write_files-again p xs w a.1

  -- An Inject that succeeds leaves in each of the four files what is rendered for it, and the next one
  -- with the same parameters leaves the world as it is, where the file system keeps what is written
  -- and the four paths are different.
  pub inject-Written :
      (p : InjectParams) (w w' : W)
      → Distinct (writers o p)
      → inject o p w ≡ (none, w')
      → All (Written p w') (writers o p) × (inject o p w' ≡ (none, w'))
  unfolding inject
  inject-Written p w w' d h = elim (Bool-cases (is_empty p.config.auth_secret)) [
    | inl b ↦ ground arith
    | inr b ↦ elim (Bool-cases (is_empty p.instance_password)) [
      | inl c ↦ ground arith
      | inr c ↦
          let (a, _) = write_files-ok p (writers o p) w w' d (rw c at (rw b at h)) in
          (a, rw (b, c) (write_files-again p (writers o p) w' a))
    ]
  ]
