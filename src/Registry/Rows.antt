-- ===== src/Registry/Rows.antt =====
-- The table `instances` of registry.go, and the SQL that its statements are made of.
use fox_fleet.Prelude.{
  ℕ, String, Option, none, some, List, [], ◌∷◌, ite, string_discrete, ℕ_discrete, dec_le, Bool,
  true, false,
}

pub record Instance : Type 0 where
  pub id : String
  pub image_digest : String
  pub port : ℕ
  pub data_dir : String
  pub status : String
  pub created_at : ℕ
  pub skillset_name : String
  pub principal_role : String
  pub query_token : String
  pub plane_auth_token : String
  pub instance_password : String

-- A row has one column that the program never reads back into an `Instance`.
pub record Row : Type 0 where
  pub inst : Instance
  pub open inst use *
  pub query_token_hash : String

-- WHERE id = ?
unfoldable pub find : String → List Row → Option Row
find id [] = none
find id (r ∷ rs) = ite (string_discrete r.id id) (some r) (find id rs)

-- The first row with the hash.
unfoldable pub find_hash : String → List Row → Option Row
find_hash h [] = none
find_hash h (r ∷ rs) = ite (string_discrete r.query_token_hash h) (some r) (find_hash h rs)

-- UPDATE … SET … WHERE id = ?
unfoldable pub update : String → (Row → Row) → List Row → List Row
update id f [] = []
update id f (r ∷ rs) = ite (string_discrete r.id id) (f r ∷ update id f rs) (r ∷ update id f rs)

-- DELETE … WHERE id = ?
unfoldable pub delete_where : String → List Row → List Row
delete_where id [] = []
delete_where id (r ∷ rs) =
    ite (string_discrete r.id id) (delete_where id rs) (r ∷ delete_where id rs)

-- Whether a row of another instance has the port, which is UNIQUE.
unfoldable pub port_taken : String → ℕ → List Row → Bool
port_taken id port [] = false
port_taken id port (r ∷ rs) =
    ite (string_discrete r.id id) (port_taken id port rs)
      (ite (ℕ_discrete r.port port) true (port_taken id port rs))

-- ORDER BY created_at; rows of one second stay in the order of their insertion.
unfoldable pub insert_by_time : Row → List Row → List Row
insert_by_time r [] = r ∷ []
insert_by_time r (q ∷ qs) =
    ite (dec_le r.created_at q.created_at) (r ∷ q ∷ qs) (q ∷ insert_by_time r qs)

unfoldable pub order_by_time : List Row → List Row
unfolding insert_by_time
order_by_time [] = []
order_by_time (r ∷ rs) = insert_by_time r (order_by_time rs)

-- The columns that the updates set.
abbrev pub set_status : String → Row → Row
set_status status r = record r { inst = record (r.inst) { status = status } }

abbrev pub set_image_digest : String → Row → Row
set_image_digest digest r = record r { inst = record (r.inst) { image_digest = digest } }

abbrev pub set_query_token : String → String → Row → Row
set_query_token token hash r = record {
  inst = record (r.inst) { query_token = token };
  query_token_hash = hash;
}

-- DO UPDATE SET: all columns but the id and the creation time.
abbrev pub overwrite : Instance → String → Row → Row
overwrite i hash r = record {
  inst = record i { id = r.id; created_at = r.created_at };
  query_token_hash = hash;
}
