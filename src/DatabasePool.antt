-- ===== src/DatabasePool.antt =====
-- database_pool.h and database_pool.cpp: a fixed set of database handles and the leases on them.
-- A `MYSQL*` is a number. `mysql_init`, `mysql_real_connect` and `mysql_query` are arguments. The
-- mutex makes each call below one step; a call that would wait on the condition variable has no result.
pub mod Slots
pub mod Conservation
pub mod Init
pub mod Closing
mod Tests
use mini_server.Prelude.{
  ℕ, zero, suc, ◌+◌, Bool, true, false, Option, none, some, List, [], ◌∷◌, ◌++◌,
}

pub record DatabasePool : Type 0 where
  pub pool_size : ℕ
  pub all : List ℕ
  pub available : List ℕ

-- `pool_` is null or the one pool; `db_` is null or a handle.
pub record Lease : Type 0 where
  pub has_pool : Bool
  pub db : Option ℕ

-- Lease()
abbrev pub no_lease : Lease
no_lease = record { has_pool = false; db = none }

-- Lease(pool, db)
abbrev lease_on : ℕ → Lease
lease_on db = record { has_pool = true; db = some db }

-- DatabasePool(config)
abbrev pub database_pool : ℕ → DatabasePool
database_pool size = record { pool_size = size; all = []; available = [] }

-- The wait ends when a handle is there.
abbrev pub acquire_from : DatabasePool → List ℕ → Option (DatabasePool × Lease)
acquire_from p [] = none
acquire_from p (db ∷ rest) = some (record p { available = rest }, lease_on db)

unfoldable pub acquire : DatabasePool → Option (DatabasePool × Lease)
acquire p = acquire_from p p.available

unfoldable pub release : ℕ → DatabasePool → DatabasePool
release db p = record p { available = p.available ++ db ∷ [] }

-- `if (pool_ && db_) pool_->release(db_)`
abbrev pub release_held : Bool → Option ℕ → DatabasePool → DatabasePool
release_held true (some db) p = release db p
release_held _ _ p = p

-- ~Lease()
unfoldable pub destroy_lease : Lease → DatabasePool → DatabasePool
unfolding release
destroy_lease l p = release_held l.has_pool l.db p

-- Lease(Lease&& other): the new lease, and what is left of `other`.
unfoldable pub move_construct : Lease → Lease × Lease
move_construct other = (other, record { has_pool = false; db = none })

-- operator=(Lease&& other) for two different objects: the pool, `*this` and `other`.
unfoldable pub move_assign : Lease → Lease → DatabasePool → DatabasePool × Lease × Lease
unfolding release
move_assign this other p =
    (release_held this.has_pool this.db p, other, record { has_pool = false; db = none })

-- One round of the loop of `init`: what `mysql_init` and `mysql_real_connect` do.
pub data Connect : Type 0 where
  init_failed : Connect
  refused : ℕ → Connect
  connected : ℕ → Connect

-- The loop of `init`; `i` rounds are left, and the n-th connection attempt has the outcome `attempt n`.
unfoldable pub connect_loop : ℕ → (ℕ → Connect) → ℕ → DatabasePool → Bool × DatabasePool
connect_loop zero attempt n p = (true, p)
connect_loop (suc i) attempt n p = elim (attempt n) [
  | init_failed ↦ (false, p)
  | refused db ↦ (false, p)
  | connected db ↦
      connect_loop i attempt (n + 1)
        (record p { all = p.all ++ db ∷ []; available = p.available ++ db ∷ [] })
]

-- The schema statement runs on a lease that ends with `init`, on both of its results.
unfoldable pub with_schema : Bool → Option (DatabasePool × Lease) → Option (Bool × DatabasePool)
with_schema schema_ok none = none
with_schema schema_ok (some (p, lease)) = some (schema_ok, destroy_lease lease p)

unfoldable pub init_schema : Bool → DatabasePool → Option (Bool × DatabasePool)
unfolding with_schema
init_schema schema_ok p = with_schema schema_ok (acquire p)

abbrev pub finish_init : Bool → Bool × DatabasePool → Option (Bool × DatabasePool)
finish_init schema_ok (true, p) = init_schema schema_ok p
finish_init schema_ok (false, p) = some (false, p)

-- `none`: `init` waits for ever.
unfoldable pub init : (ℕ → Connect) → Bool → DatabasePool → Option (Bool × DatabasePool)
init attempt schema_ok p = finish_init schema_ok (connect_loop p.pool_size attempt 0 p)

-- ~DatabasePool(): the handles that it closes.
unfoldable pub destroy_pool : DatabasePool → List ℕ
destroy_pool p = p.all
