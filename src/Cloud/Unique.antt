-- ===== src/Cloud/Unique.antt =====
-- The keys of the users' table of internal/cloud: the names up to case, and the instances.
use fox_fleet.Prelude.{
  ◌≡◌, ◌≢◌, refl, ◌∙◌, String, Option, none, some, List, [], ◌∷◌, ◌++◌, if_pos, if_neg,
  string_discrete, arith, All, false, Bool-cases, inl, inr,
}
use fox_fleet.Cloud.Rows.{
  UserRow, same_instance, clear_instance, find_user, update_user, delete_user, instance_taken,
}

pub same_instance-none : (i : Option String) → same_instance i none ≡ false
unfolding same_instance
same_instance-none none = refl
same_instance-none (some i) = refl

same_instance_comm : (i j : Option String) → same_instance i j ≡ same_instance j i
unfolding same_instance
same_instance_comm none none = refl
same_instance_comm none (some j) = refl
same_instance_comm (some i) none = refl
same_instance_comm (some i) (some j) = ground arith

module _ (nocase : String → String) where
  -- No user has the name, and none the instance.
  abbrev Apart : String → Option String → List UserRow → Type 0
  Apart key i us = All (λ q. (nocase q.username ≢ key) × (same_instance q.instance_id i ≡ false)) us

  abbrev pub UniqueUsers : List UserRow → Type 0
  UniqueUsers [] = Unit {0}
  UniqueUsers (u ∷ us) = Apart (nocase u.username) u.instance_id us × UniqueUsers us

  -- A change of a user's row that keeps the name and the instance.
  abbrev pub KeepsUser : (UserRow → UserRow) → Type 0
  KeepsUser f = (u : UserRow) → ((f u).username ≡ u.username) × ((f u).instance_id ≡ u.instance_id)

  -- One that keeps the name and sets the instance.
  abbrev pub Assigns : Option String → (UserRow → UserRow) → Type 0
  Assigns i f = (u : UserRow) → ((f u).username ≡ u.username) × ((f u).instance_id ≡ i)

  Apart-update :
      (k : String) (i : Option String) (key : String) (f : UserRow → UserRow) (us : List UserRow)
      → KeepsUser f
      → Apart k i us
      → Apart k i (update_user nocase key f us)
  unfolding update_user
  Apart-update k i key f [] c a = tt
  Apart-update k i key f (u ∷ us) c a = ground (arith, c u, Apart-update k i key f us c a.1)

  pub UniqueUsers-update :
      (key : String) (f : UserRow → UserRow) (us : List UserRow)
      → KeepsUser f
      → UniqueUsers us
      → UniqueUsers (update_user nocase key f us)
  unfolding update_user
  UniqueUsers-update key f [] c a = tt
  UniqueUsers-update key f (u ∷ us) c a =
      let rest = UniqueUsers-update key f us c a.1 in
      let apart = Apart-update (nocase u.username) u.instance_id key f us c a.0 in
      elim (string_discrete (nocase u.username) key) [
        | yes p ↦ rw (if_pos _ p) (rw ((c u).0, (c u).1) (apart, rest))
        | no p ↦ rw (if_neg _ p) (apart, rest)
      ]

  Apart-assign :
      (k : String) (j : Option String) (key : String) (i : Option String) (f : UserRow → UserRow)
      (us : List UserRow)
      → Assigns i f
      → same_instance i j ≡ false
      → Apart k j us
      → Apart k j (update_user nocase key f us)
  unfolding update_user
  Apart-assign k j key i f [] c h a = tt
  Apart-assign k j key i f (u ∷ us) c h a = ground (arith, c u, Apart-assign k j key i f us c h a.1)

  Apart-free :
      (key : String) (j i : Option String) (f : UserRow → UserRow) (us : List UserRow)
      → instance_taken nocase key i us ≡ false
      → Apart key j us
      → Apart key i (update_user nocase key f us)
  unfolding update_user instance_taken
  Apart-free key j i f [] h a = tt
  Apart-free key j i f (u ∷ us) h a = ground (arith, Apart-free key j i f us)

  pub UniqueUsers-assign :
      (key : String) (i : Option String) (f : UserRow → UserRow) (us : List UserRow)
      → Assigns i f
      → instance_taken nocase key i us ≡ false
      → UniqueUsers us
      → UniqueUsers (update_user nocase key f us)
  unfolding update_user instance_taken
  UniqueUsers-assign key i f [] c h a = tt
  UniqueUsers-assign key i f (u ∷ us) c h a = elim (string_discrete (nocase u.username) key) [
    | yes e ↦
        let h' : instance_taken nocase key i us ≡ false = ground arith in
        rw (if_pos _ e) (
          rw ((c u).0, (c u).1, e)
            (
              Apart-free key u.instance_id i f us h' (rw e at a.0),
              UniqueUsers-assign key i f us c h' a.1,
            ))
    | no e ↦
        let h' : instance_taken nocase key i us ≡ false = ground arith in
        let q : same_instance i u.instance_id ≡ false =
          same_instance_comm i u.instance_id ∙ ground arith in
        rw (if_neg _ e) (
          Apart-assign (nocase u.username) u.instance_id key i f us c q a.0,
          UniqueUsers-assign key i f us c h' a.1,
        )
  ]

  Apart-append :
      (k : String) (i : Option String) (us : List UserRow) (x : UserRow)
      → Apart k i us
      → (nocase x.username ≢ k) × (same_instance x.instance_id i ≡ false)
      → Apart k i (us ++ x ∷ [])
  Apart-append k i [] x a h = (h, tt)
  Apart-append k i (u ∷ us) x a h = (a.0, Apart-append k i us x a.1 h)

  -- A new user with a new name and no instance.
  pub UniqueUsers-append :
      (us : List UserRow) (x : UserRow)
      → find_user nocase (nocase x.username) us ≡ none
      → x.instance_id ≡ none
      → UniqueUsers us
      → UniqueUsers (us ++ x ∷ [])
  unfolding find_user same_instance
  UniqueUsers-append [] x f n a = (tt, tt)
  UniqueUsers-append (u ∷ us) x f n a = (
    Apart-append (nocase u.username) u.instance_id us x a.0 (ground arith, rw n refl),
    UniqueUsers-append us x (ground arith) n a.1,
  )

  Apart-delete :
      (k : String) (i : Option String) (key : String) (us : List UserRow)
      → Apart k i us
      → Apart k i (delete_user nocase key us)
  unfolding delete_user
  Apart-delete k i key [] a = tt
  Apart-delete k i key (u ∷ us) a = ground (arith, Apart-delete k i key us a.1)

  pub UniqueUsers-delete :
      (key : String) (us : List UserRow) → UniqueUsers us → UniqueUsers (delete_user nocase key us)
  unfolding delete_user
  UniqueUsers-delete key [] a = tt
  UniqueUsers-delete key (u ∷ us) a = ground (
    arith,
    UniqueUsers-delete key us a.1,
    Apart-delete (nocase u.username) u.instance_id key us a.0,
  )

  Apart-clear :
      (k : String) (i : Option String) (id : String) (us : List UserRow)
      → Apart k i us
      → Apart k i (clear_instance id us)
  unfolding clear_instance same_instance
  Apart-clear k i id [] a = tt
  Apart-clear k i id (u ∷ us) a = ground (arith, Apart-clear k i id us a.1)

  Apart-none : (k : String) (i : Option String) (us : List UserRow) → Apart k i us → Apart k none us
  Apart-none k i [] a = tt
  Apart-none k i (u ∷ us) a = ((a.0.0, same_instance-none u.instance_id), Apart-none k i us a.1)

  pub UniqueUsers-clear :
      (id : String) (us : List UserRow) → UniqueUsers us → UniqueUsers (clear_instance id us)
  unfolding clear_instance
  UniqueUsers-clear id [] a = tt
  UniqueUsers-clear id (u ∷ us) a =
      let rest = UniqueUsers-clear id us a.1 in
      let apart = Apart-clear (nocase u.username) u.instance_id id us a.0 in
      elim (Bool-cases (same_instance u.instance_id (some id))) [
        | inl p ↦
            rw p (Apart-none (nocase u.username) u.instance_id (clear_instance id us) apart, rest)
        | inr p ↦ rw p (apart, rest)
      ]
