-- ===== src/Server/Tests.antt =====
-- The settings and the start of the server, at examples.
use learning_garden_server.Prelude.{◌≡◌, refl, [], ◌∷◌, Text, codes, true, some}
use learning_garden_server.Strings.{trim_space}
use learning_garden_server.Server.{split_csv}
use learning_garden_server.Server.Settings.{PoolConfig}
use learning_garden_server.Server.Start.{Surroundings, server_closed, signalled}

split_csv_test :
    split_csv (codes " http://a,, http://b ") ≡ codes "http://a" ∷ codes "http://b" ∷ []
unfolding split_csv trim_space
split_csv_test = refl

abbrev pool : Text → PoolConfig
pool url = record {
  url = url;
  max_conns = 4;
  min_conns = 0;
  max_conn_lifetime = 0;
  max_conn_idle_time = 0;
  health_check_period = 0;
  ping_timeout = 0;
}

-- All answers, and then the signal
abbrev sound : Surroundings
sound = record {
  getenv = λ name. [];
  parse_config = λ url. some (pool url);
  pool_is_created = true;
  postgres_answers = true;
  redis_answers = true;
  stop = signalled;
  shutdown_succeeds = true;
  after_shutdown = server_closed;
}
