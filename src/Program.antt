-- ===== src/Program.antt =====
-- server.cpp: the configuration from the environment. `getenv` is the lookup in a list of variables.
pub mod Configured
mod Tests
use mini_server.Prelude.{ℕ, ◌-◌, ltb, if◌then◌else◌, ◌%◌, ◌^◌, Option, none, some, List}
use mini_server.Bytes.{Bytes, codes}
use mini_server.Bytes.Dict.{lookup}
use mini_server.Bytes.Integer.{ℤ, pos, negsuc, atoi, strtoul}
use mini_server.HttpServer.Config.{
  HttpServerConfig, DatabaseConfig, http_server_config, database_config,
}

abbrev pub Environment : Type 0
Environment = List (Bytes × Bytes)

-- A variable read as `read` does, or the fallback.
abbrev value_or {ℓ} : {A : Type ℓ} → Option Bytes → (Bytes → A) → A → A
value_or none read fallback = fallback
value_or (some value) read fallback = read value

unfoldable pub env_or_default : Environment → Bytes → Bytes → Bytes
env_or_default env name fallback = value_or (lookup name env) (λ value. value) fallback

-- The cast to `unsigned int` keeps 32 bits.
unfoldable pub env_port_or_default : Environment → Bytes → ℕ → ℕ
env_port_or_default env name fallback =
    value_or (lookup name env) (λ value. strtoul value % 2 ^ 32) fallback

abbrev clamp_to : ℕ → ℕ → ℕ
clamp_to greatest n = if ltb n greatest then n else greatest

-- The `int` with these 32 bits.
abbrev int_of_bits : ℕ → ℤ
int_of_bits bits = if ltb bits (2 ^ 31) then pos bits else negsuc (2 ^ 32 - 1 - bits)

-- The result of `std::atoi`: the `long` that the number is or is nearest to, and its low 32 bits.
unfoldable pub to_int : ℤ → ℤ
to_int (pos n) = int_of_bits (clamp_to (2 ^ 63 - 1) n % 2 ^ 32)
to_int (negsuc n) = int_of_bits (2 ^ 32 - 1 - clamp_to (2 ^ 63 - 1) n % 2 ^ 32)

unfoldable pub env_int_or_default : Environment → Bytes → ℤ → ℤ
env_int_or_default env name fallback =
    value_or (lookup name env) (λ value. to_int (atoi value)) fallback

-- The part of `main` that sets the database's configuration.
unfoldable pub database_from : Environment → DatabaseConfig
database_from env =
    let config = database_config in
    record config {
      host = env_or_default env (codes "MINI_DB_HOST") config.host;
      user = env_or_default env (codes "MINI_DB_USER") config.user;
      password = env_or_default env (codes "MINI_DB_PASSWORD") config.password;
      database = env_or_default env (codes "MINI_DB_NAME") config.database;
      port = env_port_or_default env (codes "MINI_DB_PORT") config.port;
    }

-- The configuration that `main` gives the server.
unfoldable pub config_from : Environment → HttpServerConfig
config_from env =
    let config = http_server_config in
    record config {
      database = database_from env;
      idle_timeout_seconds =
          env_int_or_default env (codes "MINI_IDLE_TIMEOUT_SECONDS") config.idle_timeout_seconds;
    }
