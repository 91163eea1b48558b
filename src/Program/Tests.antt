-- ===== src/Program/Tests.antt =====
-- Environments.
use mini_server.Prelude.{◌-◌, ◌%◌, ◌^◌, ◌≡◌, refl, [], ◌∷◌, ◌++◌, arith}
use mini_server.Bytes.{codes, beq}
use mini_server.Bytes.Dict.{lookup}
use mini_server.Bytes.Integer.{pos, negsuc, atoi, atoi_signed, strtoul, strtoul_signed}
use mini_server.HttpServer.Config.{DatabaseConfig, database_config, http_server_config}
use mini_server.Program.{
  config_from, database_from, env_or_default, env_port_or_default, env_int_or_default, to_int,
}
use mini_server.Program.Configured.{written_environment, config_from-written_environment}

abbrev remote : DatabaseConfig
remote = record database_config { host = codes "db"; port = 3307 }

config_from-written_environment_example :
    config_from (written_environment remote 60 ++ []) ≡ record http_server_config {
      database = record remote { port = 3307 % 2 ^ 32; pool_size = 4 };
      idle_timeout_seconds = pos 60;
    }
config_from-written_environment_example =
    config_from-written_environment remote 60 [] (omega arith) (omega arith)

-- Nothing is set.
by_default : config_from [] ≡ http_server_config
unfolding config_from database_from env_or_default env_port_or_default env_int_or_default lookup
by_default = refl

-- A value that is no number is read as 0: connections are idle at once.
no_number :
    (config_from ((codes "MINI_IDLE_TIMEOUT_SECONDS", codes "soon") ∷ [])).idle_timeout_seconds
    ≡ pos 0
unfolding config_from env_int_or_default to_int atoi atoi_signed lookup beq
    mini_server.Bytes.drop_while mini_server.Bytes.take_while mini_server.Bytes.decimal_from
no_number = refl

-- Beyond the greatest `int` the number wraps, and beyond the greatest `long` it is -1.
too_late : to_int (pos (2 ^ 31)) ≡ negsuc (2 ^ 31 - 1)
unfolding to_int
too_late = refl

much_too_late : to_int (pos (2 ^ 64)) ≡ negsuc 0
unfolding to_int
much_too_late = refl

negative_port : env_port_or_default ((codes "P", codes " -1") ∷ []) (codes "P") 0 ≡ 2 ^ 32 - 1
unfolding env_port_or_default strtoul strtoul_signed lookup beq mini_server.Bytes.drop_while
    mini_server.Bytes.take_while mini_server.Bytes.decimal_from
negative_port = refl
