-- ===== src/Auth/Store.antt =====
-- The interfaces `UserStore` and `RefreshStore` of services/api/internal/auth/service.go, and the
-- in-memory stores behind them.
use learning_garden_server.Prelude.{Text, Exec}
use learning_garden_server.Strings.{Unicode}
use learning_garden_server.Auth.Types.{Time, User, CreateUserInput, RefreshSession}
use learning_garden_server.Auth.UserStore.{
  MemoryUserStore, create_user, find_by_email, find_by_handle, find_by_id,
}
use learning_garden_server.Auth.RefreshStore.{MemoryRefreshStore, save, find, revoke}

-- What a store itself draws from the random source and the clock is passed to `create_user`.
pub record UserStore : Type 1 where
  pub State : Type 0
  pub create_user : CreateUserInput → (random : Text) (now : Time) → Exec State User
  pub find_by_email : Text → Exec State User
  pub find_by_handle : Text → Exec State User
  pub find_by_id : Text → Exec State User

pub record RefreshStore : Type 1 where
  pub State : Type 0
  pub save : RefreshSession → Exec State (Unit {0})
  pub find : Text → Exec State RefreshSession
  pub revoke : Text → Exec State (Unit {0})

abbrev pub memory_users : Unicode → UserStore
memory_users u = record {
  State = MemoryUserStore;
  create_user = create_user u;
  find_by_email = find_by_email u;
  find_by_handle = find_by_handle u;
  find_by_id = find_by_id;
}

abbrev pub memory_refresh : RefreshStore
memory_refresh = record { State = MemoryRefreshStore; save = save; find = find; revoke = revoke }
