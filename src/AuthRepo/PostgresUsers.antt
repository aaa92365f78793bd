-- ===== src/AuthRepo/PostgresUsers.antt =====
-- `PostgresUserStore` of services/api/internal/authrepo/postgres_users.go, over the table `users`
-- of services/api/db/migrations/0001_users.sql.
pub mod Lookups
mod Tests
use learning_garden_server.Prelude.{
  Bool, true, false, not, ◌&&◌, Option, none, some, List, [], ◌∷◌, ◌++◌, Text, codes, text_eq, ◌==◌,
  any, if◌then◌else◌, Error, Result, ok, err, Exec, email_taken, handle_taken, invalid_credentials,
  unauthorized, failure,
}
use learning_garden_server.Auth.Types.{Time, User, CreateUserInput}
use learning_garden_server.Auth.Store.{UserStore}

-- The columns that the statements of the store read. Those of the type `citext` keep their letters.
pub record UserRow : Type 0 where
  pub id : Text
  pub email : Text
  pub password_hash : Text
  pub handle : Text
  pub display_name : Text
  pub role : Text
  pub status : Text
  pub created_at : Time
  pub is_deleted : Bool

abbrev pub Users : Type 0
Users = List UserRow

-- An error of the database: no row, a violated constraint by its code and its name, any other.
pub data UserDbError : Type 0 where
  no_rows : UserDbError
  violated : (code constraint : Text) → UserDbError
  other : UserDbError

pub data UserReply {ℓ} (A : Type ℓ) : Type ℓ where
  row : A → UserReply A
  fault : UserDbError → UserReply A

pub data UserStatement : Type 0 where
  insert_user_stmt select_email_stmt select_handle_stmt select_id_stmt : UserStatement

-- What decides outside the program: `citext` compares texts by `fold`, a text is read as a UUID,
-- and a statement can fail for a reason outside the table, in which case it has no effect.
pub record UserDatabase : Type 0 where
  pub fold : Text → Text
  pub parse_uuid : Text → Option Text
  pub fault_of : UserStatement → Users → Option UserDbError

-- The first row that passes a test
abbrev pub first_row : (UserRow → Bool) → Users → Option UserRow
first_row p [] = none
first_row p (r ∷ rs) = let rest = first_row p rs in if p r then some r else rest

module _ (db : UserDatabase) where
  abbrev pub same_text : Text → Text → Bool
  same_text a b = db.fold a == db.fold b

  -- The columns that are not given have their defaults; `now` is the database's clock.
  abbrev pub inserted_user : CreateUserInput → (id : Text) (now : Time) → UserRow
  inserted_user input id now = record {
    id = id;
    email = input.email;
    password_hash = input.password_hash;
    handle = input.handle;
    display_name = input.display_name;
    role = codes "user";
    status = codes "active";
    created_at = now;
    is_deleted = false;
  }

  -- The unique constraints, in the order of their indexes; a deleted row takes part in them.
  unfoldable pub insert_user_row : UserRow → Users → UserReply UserRow × Users
  insert_user_row new users =
      if any (λ r. r.id == new.id) users
      then (fault (violated (codes "23505") (codes "users_pkey")), users)
      else if any (λ r. same_text r.email new.email) users
      then (fault (violated (codes "23505") (codes "users_email_key")), users)
      else if any (λ r. same_text r.handle new.handle) users
      then (fault (violated (codes "23505") (codes "users_handle_key")), users)
      else (row new, users ++ new ∷ [])

  abbrev pub insert_with :
      Option UserDbError → Option Text → CreateUserInput → Time → Users → UserReply UserRow × Users
  insert_with (some e) id input now users = (fault e, users)
  insert_with none none input now users = (fault other, users)
  insert_with none (some id) input now users = insert_user_row (inserted_user input id now) users

  -- `INSERT INTO users … RETURNING …`
  unfoldable pub insert_user : CreateUserInput → Time → Users → UserReply UserRow × Users
  unfolding insert_user_row
  insert_user input now users =
      insert_with (db.fault_of insert_user_stmt users) (db.parse_uuid input.id) input now users

  abbrev pub found_user : Option UserRow → UserReply UserRow
  found_user none = fault no_rows
  found_user (some r) = row r

  abbrev pub select_with : Option UserDbError → Option UserRow → UserReply UserRow
  select_with (some e) found = fault e
  select_with none found = found_user found

  -- `SELECT … WHERE email = $1 AND deleted_at IS NULL`
  unfoldable pub select_by_email : Text → Users → UserReply UserRow
  select_by_email email users =
      select_with (db.fault_of select_email_stmt users)
        (first_row (λ r. same_text r.email email && not r.is_deleted) users)

  unfoldable pub select_by_handle : Text → Users → UserReply UserRow
  select_by_handle handle users =
      select_with (db.fault_of select_handle_stmt users)
        (first_row (λ r. same_text r.handle handle && not r.is_deleted) users)

  abbrev pub select_id_with : Option UserDbError → Option Text → Users → UserReply UserRow
  select_id_with (some e) id users = fault e
  select_id_with none none users = fault other
  select_id_with none (some id) users =
      found_user (first_row (λ r. r.id == id && not r.is_deleted) users)

  unfoldable pub select_by_id : Text → Users → UserReply UserRow
  select_by_id id users = select_id_with (db.fault_of select_id_stmt users) (db.parse_uuid id) users

  -- `scanUser`
  unfoldable pub scan_user : UserRow → User
  scan_user r = record {
    id = r.id;
    email = r.email;
    handle = r.handle;
    display_name = r.display_name;
    password_hash = r.password_hash;
    role = r.role;
    status = r.status;
    created_at = r.created_at;
  }

  -- The errors of `CreateUser`
  unfoldable pub create_user_error : UserDbError → Error
  create_user_error no_rows = failure
  create_user_error other = failure
  create_user_error (violated code constraint) =
      if not (code == codes "23505")
      then failure
      else if constraint == codes "users_email_key"
      then email_taken
      else if constraint == codes "users_handle_key"
      then handle_taken
      else failure

  abbrev pub created : UserReply UserRow → Result User
  created (row r) = ok (scan_user r)
  created (fault e) = err (create_user_error e)

  unfoldable pub create_user : CreateUserInput → Time → Exec Users User
  unfolding insert_user scan_user create_user_error
  create_user input now users =
      let (reply, after) = insert_user input now users in (created reply, after)

  -- What the three searches make of an answer, `missing` where there is no row.
  abbrev pub searched : Error → UserReply UserRow → Result User
  searched missing (row r) = ok (scan_user r)
  searched missing (fault no_rows) = err missing
  searched missing (fault e) = err failure

  unfoldable pub find_by_email : Text → Exec Users User
  unfolding select_by_email scan_user
  find_by_email email users = (searched invalid_credentials (select_by_email email users), users)

  unfoldable pub find_by_handle : Text → Exec Users User
  unfolding select_by_handle scan_user
  find_by_handle handle users = (searched unauthorized (select_by_handle handle users), users)

  unfoldable pub find_by_id : Text → Exec Users User
  unfolding select_by_id scan_user
  find_by_id id users = (searched unauthorized (select_by_id id users), users)

-- The store draws no random id; `created_at` is the database's time.
abbrev pub postgres_users : UserDatabase → UserStore
postgres_users db = record {
  State = Users;
  create_user = λ input random now. create_user db input now;
  find_by_email = find_by_email db;
  find_by_handle = find_by_handle db;
  find_by_id = find_by_id db;
}
