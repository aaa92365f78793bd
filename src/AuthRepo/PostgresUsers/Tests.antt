-- ===== src/AuthRepo/PostgresUsers/Tests.antt =====
-- The theorems on the Postgres user store, at a table that evaluates.
use learning_garden_server.Prelude.{◌≡◌, refl, none, some, [], ◌∷◌, codes, text_beq, text_eq, ok}
use learning_garden_server.Strings.{to_lower}
use learning_garden_server.Auth.Types.{User, CreateUserInput}
use learning_garden_server.AuthRepo.PostgresUsers.{
  Users, UserDatabase, create_user, find_by_email, find_by_handle, find_by_id, inserted_user,
  scan_user,
}
use learning_garden_server.AuthRepo.PostgresUsers.Lookups.{
  create_user_lem, find-create_postgres_user, IsAnswer,
}
use learning_garden_server.Samples.{ascii}

abbrev database : UserDatabase
database = record {
  fold = to_lower ascii;
  parse_uuid = λ t. some t;
  fault_of = λ statement table. none;
}

abbrev input : CreateUserInput
input = record {
  id = codes "u1";
  email = codes "Ada@example.org";
  handle = codes "ada";
  display_name = codes "Ada";
  password_hash = codes "hash";
}

abbrev ada : User
ada = scan_user database (inserted_user database input (codes "u1") 3)

abbrev again : CreateUserInput
again = record input { id = codes "u2"; email = codes "ADA@example.org" }

abbrev one_user : Users
one_user = inserted_user database input (codes "u1") 3 ∷ []

find-create_postgres_user_example :
    ((find_by_email database (codes "ada@EXAMPLE.org") (create_user database input 3 []).1).0
      ≡ ok ada)
    × ((find_by_handle database (codes "Ada") (create_user database input 3 []).1).0 ≡ ok ada)
    × ((find_by_id database (codes "u1") (create_user database input 3 []).1).0 ≡ ok ada)
unfolding create_user to_lower text_beq
find-create_postgres_user_example =
    find-create_postgres_user database input ada 3 [] refl (λ statement table. refl)
      (codes "ada@EXAMPLE.org") (codes "Ada") (codes "u1") refl refl refl

create_user_lem_example : IsAnswer database again 4 one_user (create_user database again 4 one_user)
create_user_lem_example = create_user_lem database again 4 one_user (λ e faulty. cc)
