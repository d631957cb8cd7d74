-- ===== src/Panel/Apart.antt =====
-- No two users' requests get to one instance.
use fox_fleet.Prelude.{
  ℕ, ◌≡◌, ◌≢◌, sym, ap, subst, ◌∙◌, String, Option, some, List, [], ◌∷◌, Bool, true, false,
  string_discrete, arith, All,
}
use fox_fleet.Registry.Rows.{Row}
use fox_fleet.Registry.Rows
use fox_fleet.Registry.Unique
use fox_fleet.Cloud.Rows.{UserRow, Db, find_user, same_instance}
use fox_fleet.Cloud.Unique.{UniqueUsers}
use fox_fleet.Cloud.Invariant.{Inv}
use fox_fleet.Panel.Hosts.{subdomain, route}
use fox_fleet.Panel.Login.{proxied}
use fox_fleet.Panel.Subdomain.{Request, Outside, State, host_dispatcher}
use fox_fleet.Panel.Isolation.{Own, host_dispatcher-Granted}

find-All :
    (P : Row → Type 0) (id : String) (rows : List Row) (x : Row)
    → Rows.find id rows ≡ some x
    → All P rows
    → P x
unfolding Rows.find
find-All P id [] x e a = absurd (ground arith)
find-All P id (r ∷ rows) x e a = elim (string_discrete r.id id) [
  | yes p ↦ let q : r ≡ x = ground arith in subst P q a.0
  | no p ↦ find-All P id rows x (ground arith) a.1
]

-- A row further on has another port.
find-other :
    (port : ℕ) (i id : String) (rows : List Row) (x : Row)
    → Unique.Apart i port rows
    → Rows.find id rows ≡ some x
    → x.port ≢ port
find-other port i id rows x a e = (find-All (λ q. (q.id ≢ i) × (q.port ≢ port)) id rows x e a).1

-- A port is that of one id.
find-port :
    (i j : String) (rows : List Row) (x y : Row)
    → Unique.Unique rows
    → Rows.find i rows ≡ some x
    → Rows.find j rows ≡ some y
    → x.port ≡ y.port
    → i ≡ j
unfolding Rows.find
find-port i j [] x y u a b p = absurd (ground arith)
find-port i j (r ∷ rows) x y u a b p = elim (string_discrete r.id i) [
  | yes e ↦ elim (string_discrete r.id j) [
    | yes f ↦ sym e ∙ f
    | no f ↦ absurd (ground (arith, find-other r.port r.id j rows y u.0))
  ]
  | no e ↦ elim (string_discrete r.id j) [
    | yes f ↦ absurd (ground (arith, find-other r.port r.id i rows x u.0))
    | no f ↦ find-port i j rows x y u.1 (ground arith) (ground arith) p
  ]
]

same_instance_self : (i : String) → same_instance (some i) (some i) ≡ true
unfolding same_instance
same_instance_self i = ground arith

module _ (nocase : String → String) where
  find_user-All :
      (P : UserRow → Type 0) (k : String) (us : List UserRow) (u : UserRow)
      → find_user nocase k us ≡ some u
      → All P us
      → P u
  unfolding find_user
  find_user-All P k [] u e a = absurd (ground arith)
  find_user-All P k (v ∷ us) u e a = elim (string_discrete (nocase v.username) k) [
    | yes p ↦ let q : v ≡ u = ground arith in subst P q a.0
    | no p ↦ find_user-All P k us u (ground arith) a.1
  ]

  -- A user further on has another instance.
  find_user-other :
      (name : String) (i : Option String) (k : String) (us : List UserRow) (u : UserRow)
      → All (λ q. (nocase q.username ≢ name) × (same_instance q.instance_id i ≡ false)) us
      → find_user nocase k us ≡ some u
      → same_instance u.instance_id i ≡ false
  find_user-other name i k us u a e =
      (find_user-All (λ q. (nocase q.username ≢ name) × (same_instance q.instance_id i ≡ false)) k
        us u e a).1

  -- An instance is that of one name.
  find_user-instance :
      (k l i : String) (us : List UserRow) (u v : UserRow)
      → UniqueUsers nocase us
      → find_user nocase k us ≡ some u
      → find_user nocase l us ≡ some v
      → u.instance_id ≡ some i
      → v.instance_id ≡ some i
      → k ≡ l
  unfolding find_user
  find_user-instance k l i [] u v q a b m n = absurd (ground arith)
  find_user-instance k l i (w ∷ us) u v q a b m n =
      let self = same_instance_self i in
      elim (string_discrete (nocase w.username) k) [
        | yes e ↦ elim (string_discrete (nocase w.username) l) [
          | yes f ↦ sym e ∙ f
          | no f ↦
              absurd (ground (arith, find_user-other (nocase w.username) w.instance_id l us v q.0))
        ]
        | no e ↦ elim (string_discrete (nocase w.username) l) [
          | yes f ↦
              absurd (ground (arith, find_user-other (nocase w.username) w.instance_id k us u q.0))
          | no f ↦ find_user-instance k l i us u v q.1 (ground arith) (ground arith) m n
        ]
      ]

  Own-apart :
      (a b : String) (db : Db) (port : ℕ) (s t : String)
      → Inv nocase db
      → Unique.Unique db.instances
      → Own nocase a db port s
      → Own nocase b db port t
      → nocase a ≡ nocase b
  Own-apart a b db port s t v u x y =
      let ids : x.id ≡ y.id =
        find-port x.id y.id db.instances x.inst y.inst u x.there y.there
          (x.port_is ∙ sym y.port_is) in
      find_user-instance (nocase a) (nocase b) y.id db.users x.row y.row v.good.unique x.user y.user
        (x.assigned ∙ ap some ids) y.assigned

  -- Where the keys of the tables hold, two requests that get to one port are for one user: the names
  -- of their subdomains are the same up to case.
  pub host_dispatcher_apart :
      (sha256_hex : String → String) (o p : Outside) (matches : String → String → Bool)
      (domain : String) (q r : Request) (s : State) (port : ℕ) (t u a b : String)
      → Inv nocase s.db
      → Unique.Unique s.db.instances
      → route domain q.host ≡ subdomain a
      → route domain r.host ≡ subdomain b
      → (host_dispatcher nocase sha256_hex o matches domain q s).0 ≡ proxied port t
      → (host_dispatcher nocase sha256_hex p matches domain r s).0 ≡ proxied port u
      → nocase a ≡ nocase b
  host_dispatcher_apart sha256_hex o p matches domain q r s port t u a b v keys m n h k =
      let x = host_dispatcher-Granted nocase sha256_hex o matches domain q s port t h in
      let y = host_dispatcher-Granted nocase sha256_hex p matches domain r s port u k in
      let to_a : x.0 ≡ a = ground arith in
      let to_b : y.0 ≡ b = ground arith in
      ap nocase (sym to_a) ∙ Own-apart x.0 y.0 s.db port t u v keys x.1.1.1 y.1.1.1 ∙ ap nocase to_b
