-- ===== src/Auth/Types.antt =====
-- The data of services/api/internal/auth/service.go. A time is its number of nanoseconds since
-- 1970, and a duration its number of nanoseconds.
use learning_garden_server.Prelude.{
  ℕ, ◌*◌, Bool, Text, codes, nat_eq, ◌==◌, is_empty, if◌then◌else◌, [],
}
use learning_garden_server.Strings.{Unicode, to_lower, trim_space}

abbrev pub Time : Type 0
Time = ℕ

abbrev pub second : ℕ
second = 1_000_000_000

pub record Config : Type 0 where
  pub access_token_ttl : ℕ
  pub refresh_token_ttl : ℕ
  pub jwt_secret : Text

abbrev pub default_config : Config
default_config = record {
  access_token_ttl = 15 * 60 * second;
  refresh_token_ttl = 30 * 24 * 60 * 60 * second;
  jwt_secret = codes "dev-only-change-me";
}

-- The defaults that `NewService` fills in.
unfoldable pub with_defaults : Config → Config
with_defaults c = record {
  access_token_ttl =
      if c.access_token_ttl == 0 then default_config.access_token_ttl else c.access_token_ttl;
  refresh_token_ttl =
      if c.refresh_token_ttl == 0 then default_config.refresh_token_ttl else c.refresh_token_ttl;
  jwt_secret = if is_empty c.jwt_secret then default_config.jwt_secret else c.jwt_secret;
}

pub record RegisterInput : Type 0 where
  pub invite_code : Text
  pub email : Text
  pub handle : Text
  pub display_name : Text
  pub password : Text

pub record LoginInput : Type 0 where
  pub email : Text
  pub password : Text

pub record User : Type 0 where
  pub id : Text
  pub email : Text
  pub handle : Text
  pub display_name : Text
  pub password_hash : Text
  pub role : Text
  pub status : Text
  pub created_at : Time

-- `User{}`
abbrev pub zero_user : User
zero_user = record {
  id = [];
  email = [];
  handle = [];
  display_name = [];
  password_hash = [];
  role = [];
  status = [];
  created_at = 0;
}

pub record Session : Type 0 where
  pub access_token : Text
  pub refresh_token : Text
  pub user : User

pub record CreateUserInput : Type 0 where
  pub id : Text
  pub email : Text
  pub handle : Text
  pub display_name : Text
  pub password_hash : Text

pub record RefreshSession : Type 0 where
  pub token : Text
  pub user_id : Text
  pub expires_at : Time
  pub revoked : Bool

unfoldable pub normalize_email : Unicode → Text → Text
unfolding to_lower trim_space
normalize_email u email = to_lower u (trim_space email)

unfoldable pub normalize_handle : Unicode → Text → Text
unfolding to_lower trim_space
normalize_handle u handle = to_lower u (trim_space handle)
