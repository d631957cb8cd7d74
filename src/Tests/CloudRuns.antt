-- ===== src/Tests/CloudRuns.antt =====
-- Runs of internal/cloud. The names are all the same to `fold` whose case is not "ada"'s.
use text.Mathlib.TextEquality.{}
use fox_fleet.Prelude.{
  ◌*◌, ◌≤◌, ◌≡◌, ◌≢◌, refl, String, none, some, List, [], ◌∷◌, Bool, true, false, ite,
  string_discrete, arith, ok, err, invalid_credentials, session_not_found,
}
use fox_fleet.Tests.World.{digest, first_row}
use fox_fleet.Registry.Rows.{}
use fox_fleet.Registry.Writes.{deletes}
use fox_fleet.Config.{}
use fox_fleet.Cloud.Rows.{
  User, UserRow, Session, Db, refers, find_session, delete_session, find_user, delete_user, cascade,
}
use fox_fleet.Cloud.Users.{create_user, new_user, delete, authenticate}
use fox_fleet.Cloud.Sessions.{create_session, validate, delete_by_hash, second}
use fox_fleet.Cloud.Invariant.{Inv}
use fox_fleet.Cloud.Operations.{
  Op, creates_user, creates_session, writes, deletes_user, run, run-Inv,
}
use fox_fleet.Cloud.Access.{
  validate_sound, validate-create_session, validate-delete, authenticate-create_user,
}

-- "Ada" and "ada" are one name.
abbrev pub fold : String → String
fold s = ite (string_discrete s "Ada") "ada" s

program : Unit {0}
unfolding create_user new_user delete authenticate create_session validate delete_by_hash
    find_session find_user delete_user cascade string_discrete
program = tt

abbrev pub ada : User
ada = record { username = "ada"; instance_id = none; created_at = 5; updated_at = 5 }

abbrev pub ada_row : UserRow
ada_row = record { user = ada; password_hash = "hash" }

abbrev pub none_yet : Db
none_yet = record { instances = first_row ∷ []; users = []; sessions = [] }

pub none_yet-Inv : Inv fold none_yet
none_yet-Inv = record { good = record { unique = tt; bound = tt; owned = tt }; hashes = tt }

abbrev pub one_user : Db
one_user = record { instances = first_row ∷ []; users = ada_row ∷ []; sessions = [] }

abbrev session : Session
session = record { token_hash = "sha:tok"; user_id = "Ada"; created_at = 7; expires_at = 67 }

abbrev logged_in : Db
logged_in = record one_user { sessions = session ∷ [] }

abbrev calls : List Op
calls =
    creates_user none (ok "hash") 5 "ada" "pw"
    ∷ creates_session none (ok "tok") (7 * second) (60 * second) "Ada"
    ∷ writes none (deletes "fox-1")
    ∷ deletes_user none "ADA"
    ∷ []

run-Inv_example : Inv fold (run fold digest calls none_yet)
run-Inv_example = run-Inv fold digest calls none_yet none_yet-Inv

logged_in-Inv : Inv fold logged_in
unfolding program refers
logged_in-Inv = record {
  good = record { unique = (tt, tt); bound = (refl, tt); owned = (ground arith, tt) };
  hashes = (tt, tt);
}

validate_sound_example :
    (find_session "sha:tok" logged_in.sessions ≡ some session)
    × ((9 ≤ 67 * second)
        × ((find_user fold (fold "Ada") logged_in.users ≢ none) × (logged_in ≡ logged_in)))
unfolding program
validate_sound_example =
    validate_sound fold digest none none 9 "tok" logged_in logged_in session logged_in-Inv refl

validate-create_session_example :
    (validate fold digest none none (68 * second) "tok" logged_in ≡ (
      err session_not_found,
      record logged_in { sessions = delete_session "sha:tok" (session ∷ []) },
    ))
    × ((session.user_id ≡ "Ada") × (session.expires_at ≡ 67))
unfolding program
validate-create_session_example =
    validate-create_session fold digest none (ok "tok") (7 * second) (60 * second) (68 * second)
      "Ada" "tok" one_user logged_in session refl

abbrev bob_session : Session
bob_session = record { token_hash = "sha:t2"; user_id = "bob"; created_at = 7; expires_at = 67 }

abbrev bob_row : UserRow
bob_row = record {
  user = record { username = "bob"; instance_id = none; created_at = 6; updated_at = 6 };
  password_hash = "hash2";
}

abbrev two_users : Db
two_users = record {
  instances = [];
  users = ada_row ∷ bob_row ∷ [];
  sessions = session ∷ bob_session ∷ [];
}

abbrev bob_only : Db
bob_only = record { instances = []; users = bob_row ∷ []; sessions = bob_session ∷ [] }

validate-delete_example : fold "bob" ≢ fold "Ada"
unfolding program
validate-delete_example =
    validate-delete fold digest none none 9 "Ada" "t2" two_users bob_only bob_only bob_session refl
      refl

-- A password's hash is the password and a mark.
abbrev pub matches : String → String → Bool
matches hash password =
    ite (string_discrete hash "hash") (ite (string_discrete password "pw") true false) false

authenticate-create_user_example :
    authenticate fold matches none "Ada" "pw2" one_user ≡ err invalid_credentials
unfolding program
authenticate-create_user_example =
    authenticate-create_user fold digest matches none "hash" 5 "ada" "pw" "Ada" "pw2" none_yet
      one_user ada refl refl
