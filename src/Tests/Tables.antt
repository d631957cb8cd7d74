-- ===== src/Tests/Tables.antt =====
-- Writes and reads of the table `instances`.
use fox_fleet.Prelude.{
  ◌≡◌, ◌≢◌, ◌↔◌, refl, String, none, some, List, [], ◌∷◌, true, string_discrete, arith, inl,
}
use text.Mathlib.TextEquality.{eq_iff}
use fox_fleet.Tests.World.{digest, first_instance, first_row}
use fox_fleet.Registry.Rows.{Row, find, find_hash, update, delete_where, port_taken}
use fox_fleet.Registry.Instances.{create, upsert, hash_of, update_status, valid_query_token}
use fox_fleet.Registry.Writes.{creates, sets_status, apply, apply-refines}
use fox_fleet.Registry.Invariant.{Inv, apply-Inv}
use fox_fleet.Registry.Tokens.{HasToken, valid_query_token_iff}

program : Unit {0}
unfolding create upsert hash_of update_status valid_query_token find find_hash update delete_where
    port_taken string_discrete
program = tt

abbrev table : List Row
table = first_row ∷ []

table-Inv : Inv digest table
table-Inv = record { unique = (tt, tt); hashed = (inl refl, tt) }

token_text : ◌≢◌ {A = String} "token-z" ""
token_text = ground (arith, eq_iff "token-z" "")

hash_text : ◌≢◌ {A = String} "sha:token-z" ""
hash_text = ground (arith, eq_iff "sha:token-z" "")

apply-refines_example :
    find "fox-1" (apply digest none (sets_status "fox-1" "stopped") table).1
    ≡ some (record {
      inst = record first_instance { status = "stopped" };
      query_token_hash = "sha:token-z";
    })
unfolding program
apply-refines_example = apply-refines digest none (sets_status "fox-1" "stopped") table "fox-1" refl

apply-Inv_example :
    Inv digest
      (apply digest none (creates 5 (record first_instance { id = "fox-9"; port = 9109 })) table).1
apply-Inv_example =
    apply-Inv digest none (creates 5 (record first_instance { id = "fox-9"; port = 9109 })) table
      table-Inv

valid_query_token_iff_example :
    (valid_query_token digest none "token-z" table ≡ true) ↔ HasToken "token-z" table
valid_query_token_iff_example =
    valid_query_token_iff digest "token-z" table (λ e. token_text e) table-Inv
      (record { no_collision = (λ _. refl, tt); not_empty = λ e. hash_text e })
