-- ===== src/Auth/UserStore.antt =====
-- `MemoryUserStore` of services/api/internal/auth/store_memory.go. The mutex makes each method one
-- step.
pub mod Invariant
use learning_garden_server.Prelude.{
  ℕ, ◌+◌, Bool, Option, none, some, [], Text, codes, is_empty, if◌then◌else◌, Exec, Result, ok, err,
  email_taken, handle_taken, invalid_credentials, unauthorized,
}
use learning_garden_server.Prelude.Map.{Map, lookup, insert}
use learning_garden_server.Strings.{Unicode, trim_space}
use learning_garden_server.Auth.Types.{
  Time, User, zero_user, CreateUserInput, normalize_email, normalize_handle,
}

pub record MemoryUserStore : Type 0 where
  pub users : Map User
  pub by_email : Map Text
  pub by_handle : Map Text
  pub next_id : ℕ

abbrev pub new_memory_user_store : MemoryUserStore
new_memory_user_store = record { users = []; by_email = []; by_handle = []; next_id = 0 }

-- `m[k]`, which is the zero user at a missing key
abbrev pub user_at : Option User → User
user_at none = zero_user
user_at (some user) = user

module _ (u : Unicode) where
  -- The user that `CreateUser` stores. `random` is what `randomID` gives, `now` the clock's time.
  unfoldable pub new_user : CreateUserInput → (random : Text) (now : Time) → User
  new_user input random now =
      let id = trim_space input.id in
      record {
        id = if is_empty id then random else id;
        email = normalize_email u input.email;
        handle = normalize_handle u input.handle;
        display_name = trim_space input.display_name;
        password_hash = input.password_hash;
        role = codes "user";
        status = codes "active";
        created_at = now;
      }

  abbrev pub store_user : User → MemoryUserStore → MemoryUserStore
  store_user user s = record {
    users = insert user.id user s.users;
    by_email = insert user.email user.id s.by_email;
    by_handle = insert user.handle user.id s.by_handle;
    next_id = s.next_id + 1;
  }

  abbrev create_unless_taken : User → Option Text → Option Text → Exec MemoryUserStore User
  create_unless_taken user (some id) _ s = (err email_taken, s)
  create_unless_taken user none (some id) s = (err handle_taken, s)
  create_unless_taken user none none s = (ok user, store_user user s)

  unfoldable pub create_user :
      CreateUserInput → (random : Text) (now : Time) → Exec MemoryUserStore User
  create_user input random now s =
      let user = new_user input random now in
      create_unless_taken user (lookup (normalize_email u input.email) s.by_email)
        (lookup (normalize_handle u input.handle) s.by_handle) s

  abbrev indexed_user : Option Text → MemoryUserStore → Result User → Result User
  indexed_user none s missing = missing
  indexed_user (some id) s missing = ok (user_at (lookup id s.users))

  unfoldable pub find_by_email : Text → Exec MemoryUserStore User
  find_by_email email s =
      (indexed_user (lookup (normalize_email u email) s.by_email) s (err invalid_credentials), s)

  unfoldable pub find_by_handle : Text → Exec MemoryUserStore User
  find_by_handle handle s =
      (indexed_user (lookup (normalize_handle u handle) s.by_handle) s (err unauthorized), s)

abbrev pub stored_user : Option User → Result User
stored_user none = err unauthorized
stored_user (some user) = ok user

unfoldable pub find_by_id : Text → Exec MemoryUserStore User
find_by_id id s = (stored_user (lookup id s.users), s)
