-- ===== src/Server/Settings.antt =====
-- The settings of the HTTP server and of the connections in services/api/cmd/server/main.go.
use learning_garden_server.Prelude.{ℕ, ◌*◌, Bool, true, Option, none, some, Text}
use learning_garden_server.Auth.Types.{second}

abbrev minute : ℕ
minute = 60 * second

abbrev pub startup_timeout : ℕ
startup_timeout = 10 * second

abbrev pub shutdown_timeout : ℕ
shutdown_timeout = 10 * second

-- The fields of `http.Server` that the program sets
pub record HttpServer : Type 0 where
  pub addr : Text
  pub read_header_timeout : ℕ
  pub read_timeout : ℕ
  pub write_timeout : ℕ
  pub idle_timeout : ℕ

unfoldable pub new_http_server : Text → HttpServer
new_http_server addr = record {
  addr = addr;
  read_header_timeout = 2 * second;
  read_timeout = 5 * second;
  write_timeout = 10 * second;
  idle_timeout = 60 * second;
}

-- `pgxpool.Config`: what is read from the URL, and the fields that the program sets
pub record PoolConfig : Type 0 where
  pub url : Text
  pub max_conns : ℕ
  pub min_conns : ℕ
  pub max_conn_lifetime : ℕ
  pub max_conn_idle_time : ℕ
  pub health_check_period : ℕ
  pub ping_timeout : ℕ

abbrev configured : Option PoolConfig → Option PoolConfig
configured none = none
configured (some config) = some (record config {
  max_conns = 40;
  min_conns = 5;
  max_conn_lifetime = 30 * minute;
  max_conn_idle_time = 5 * minute;
  health_check_period = 30 * second;
  ping_timeout = 2 * second;
})

-- `parse_config` is `pgxpool.ParseConfig`, none where it fails.
unfoldable pub postgres_pool_config :
    (parse_config : Text → Option PoolConfig) → Text → Option PoolConfig
postgres_pool_config parse_config url = configured (parse_config url)

pub record RedisOptions : Type 0 where
  pub addr : Text
  pub password : Text
  pub db : ℕ
  pub dial_timeout : ℕ
  pub read_timeout : ℕ
  pub write_timeout : ℕ
  pub context_timeout_enabled : Bool
  pub pool_size : ℕ
  pub pool_timeout : ℕ
  pub min_idle_conns : ℕ
  pub conn_max_idle_time : ℕ
  pub conn_max_lifetime : ℕ

unfoldable pub redis_options : (addr password : Text) → RedisOptions
redis_options addr password = record {
  addr = addr;
  password = password;
  db = 0;
  dial_timeout = 2 * second;
  read_timeout = 1 * second;
  write_timeout = 1 * second;
  context_timeout_enabled = true;
  pool_size = 100;
  pool_timeout = 2 * second;
  min_idle_conns = 10;
  conn_max_idle_time = 5 * minute;
  conn_max_lifetime = 30 * minute;
}
