-- ===== src/UserService.antt =====
-- user_service.h and user_service.cpp: registration and login on a leased database handle.
-- The MySQL client is an argument: its escaping, whether a statement succeeds, and the number of rows
-- of the result of a statement, if there is a result.
pub mod Statements
mod Tests
use mini_server.Prelude.{ℕ, Bool, false, Option, none, some, ◌++◌, if◌then◌else◌, ◌==◌}
use mini_server.Bytes.{Bytes, codes}
use mini_server.DatabasePool.{DatabasePool, Lease, acquire, destroy_lease}

pub record Mysql : Type 0 where
  pub escape : Bytes → Bytes
  pub query : Bytes → Bool
  pub result_rows : Bytes → Option ℕ

-- The statement of `registerUser`.
unfoldable pub register_sql : Mysql → Bytes → Bytes → Bytes
register_sql m username password =
    codes "INSERT INTO users(username, password) VALUES('"
    ++ (m.escape username ++ (codes "', '" ++ (m.escape password ++ codes "');")))

-- The statement of `loginUser`.
unfoldable pub login_sql : Mysql → Bytes → Bytes → Bytes
login_sql m username password =
    codes "SELECT 1 FROM users WHERE username = '"
    ++ (m.escape username
        ++ (codes "' AND password = '" ++ (m.escape password ++ codes "' LIMIT 1;")))

abbrev is_one_row : Option ℕ → Bool
is_one_row none = false
is_one_row (some n) = n == 1

-- What `loginUser` makes of the statement's outcome.
unfoldable pub login_ok : Mysql → Bytes → Bool
login_ok m sql = if m.query sql then is_one_row (m.result_rows sql) else false

-- A result found on the lease, which ends with the call.
abbrev pub end_lease : Bool → Option (DatabasePool × Lease) → Option (Bool × DatabasePool)
end_lease b none = none
end_lease b (some (p, lease)) = some (b, destroy_lease lease p)

-- UserService::registerUser; `none`: it waits for a handle.
unfoldable pub register_user : Mysql → Bytes → Bytes → DatabasePool → Option (Bool × DatabasePool)
register_user m username password p =
    end_lease (m.query (register_sql m username password)) (acquire p)

-- UserService::loginUser
unfoldable pub login_user : Mysql → Bytes → Bytes → DatabasePool → Option (Bool × DatabasePool)
login_user m username password p =
    end_lease (login_ok m (login_sql m username password)) (acquire p)
