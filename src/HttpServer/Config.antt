-- ===== src/HttpServer/Config.antt =====
-- `HttpServerConfig` and `DatabaseConfig` with their defaults.
use mini_server.Prelude.{ℕ, []}
use mini_server.Bytes.{Bytes, codes}
use mini_server.Bytes.Integer.{ℤ, pos}

pub record DatabaseConfig : Type 0 where
  pub host : Bytes
  pub user : Bytes
  pub password : Bytes
  pub database : Bytes
  pub port : ℕ
  pub pool_size : ℕ

pub record HttpServerConfig : Type 0 where
  pub port : ℕ
  pub max_events : ℕ
  pub read_buffer_size : ℕ
  pub worker_threads : ℕ
  pub idle_timeout_seconds : ℤ
  pub html_root : Bytes
  pub access_log_path : Bytes
  pub database : DatabaseConfig

-- DatabaseConfig()
abbrev pub database_config : DatabaseConfig
database_config = record {
  host = codes "127.0.0.1";
  user = codes "root";
  password = [];
  database = codes "mini_server";
  port = 3306;
  pool_size = 4;
}

-- HttpServerConfig()
abbrev pub http_server_config : HttpServerConfig
http_server_config = record {
  port = 8080;
  max_events = 1024;
  read_buffer_size = 8192;
  worker_threads = 4;
  idle_timeout_seconds = pos 30;
  html_root = codes "webroot";
  access_log_path = codes "logs/access.log";
  database = database_config;
}
