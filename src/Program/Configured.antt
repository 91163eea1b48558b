-- ===== src/Program/Configured.antt =====
-- The configuration that a written environment gives.
use mini_server.Bytes.Decimal.{to_decimal}
use mini_server.Prelude.{ℕ, ◌%◌, ◌^◌, ◌<◌, ◌≡◌, refl, [], ◌∷◌, ◌++◌, arith}
use mini_server.Bytes.{codes, beq}
use mini_server.Bytes.Dict.{lookup}
use mini_server.Bytes.Integer.{pos, strtoul}
use mini_server.Bytes.Integer.Printed.{atoi-to_decimal, strtoul-to_decimal}
use mini_server.HttpServer.Config.{DatabaseConfig, http_server_config}
use mini_server.Program.{
  Environment, env_or_default, env_port_or_default, env_int_or_default, to_int, database_from,
  config_from,
}

-- The variables that set these values, in the order of `main`.
abbrev pub written_environment : DatabaseConfig → ℕ → Environment
written_environment d timeout =
    (codes "MINI_DB_HOST", d.host)
    ∷ (codes "MINI_DB_USER", d.user)
    ∷ (codes "MINI_DB_PASSWORD", d.password)
    ∷ (codes "MINI_DB_NAME", d.database)
    ∷ (codes "MINI_DB_PORT", to_decimal d.port)
    ∷ (codes "MINI_IDLE_TIMEOUT_SECONDS", to_decimal timeout)
    ∷ []

-- The cast keeps the port's remainder modulo 2^32.
port_cast : (n : ℕ) → n < 2 ^ 64 → strtoul (to_decimal n) % 2 ^ 32 ≡ n % 2 ^ 32
port_cast n h = let printed = strtoul-to_decimal n in ground arith

-- A number below 2^31 is an `int`.
to_int-pos : (n : ℕ) → n < 2 ^ 31 → to_int (pos n) ≡ pos n
unfolding to_int
to_int-pos n h = ground arith

-- An environment that starts with a database's settings and a timeout in print gives the server exactly
-- these, except that the port is taken modulo 2^32 and the size of the pool is the default; the port is
-- below 2^64 and the timeout below 2^31. Everything else is as by default, whatever other variables follow.
pub config_from-written_environment :
    (d : DatabaseConfig) (timeout : ℕ) (others : Environment)
    → d.port < 2 ^ 64
    → timeout < 2 ^ 31
    → config_from (written_environment d timeout ++ others) ≡ record http_server_config {
      database = record d { port = d.port % 2 ^ 32; pool_size = 4 };
      idle_timeout_seconds = pos timeout;
    }
unfolding config_from database_from env_or_default env_port_or_default env_int_or_default lookup beq
config_from-written_environment d timeout others fits small =
    rw (atoi-to_decimal timeout, to_int-pos timeout small, port_cast d.port fits) refl
