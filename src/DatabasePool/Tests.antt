-- ===== src/DatabasePool/Tests.antt =====
-- Runs of the pool, and its theorems at concrete inputs.
use mini_server.Prelude.{
  ℕ, ◌+◌, ◌≤◌, ◌≡◌, refl, Bool, true, false, none, some, List, [], ◌∷◌, arith, count, if◌then◌else◌,
  ◌==◌,
}
use mini_server.DatabasePool.{
  DatabasePool, acquire, destroy_lease, move_construct, move_assign, connected, init, init_schema,
  with_schema, connect_loop, database_pool, destroy_pool, refused, Connect,
}
use mini_server.DatabasePool.Slots.{
  System, Action, acquires, destroys, moves_new, moves_into, step, run,
}
use mini_server.DatabasePool.Conservation.{IsConserved, held_all, run_exclusive}
use mini_server.DatabasePool.Closing.{handles_made, closed_by_loop, init-destroy_pool}
use mini_server.DatabasePool.Init.{Ready, init-Ready, init_returns}

abbrev two : DatabasePool
two = record { pool_size = 2; all = 10 ∷ 11 ∷ []; available = 11 ∷ 10 ∷ [] }

-- `init` of two handles hands one to the schema statement and takes it back.
init-two : init (λ n. connected (10 + n)) true (database_pool 2) ≡ some (true, two)
unfolding init connect_loop init_schema acquire with_schema destroy_lease
init-two = refl

abbrev idle : System
idle = record { pool = two; leases = [] }

-- Two leases, the second moved over the first, a move into a new object, and three ends.
abbrev actions : List Action
actions =
    acquires ∷ acquires ∷ moves_into 1 0 ∷ moves_new 1 ∷ destroys 0 ∷ destroys 0 ∷ destroys 2 ∷ []

all_back : (run idle actions).pool.available ≡ 11 ∷ 10 ∷ []
unfolding run step acquire destroy_lease move_construct move_assign
all_back = refl

idle-IsConserved : IsConserved idle
idle-IsConserved a = omega arith

all_distinct : (a : ℕ) → count a idle.pool.all ≤ 1
all_distinct a = ground arith

run_exclusive_example :
    count 10 (run idle actions).pool.available + held_all 10 (run idle actions).leases ≤ 1
run_exclusive_example = run_exclusive idle actions idle-IsConserved all_distinct 10

init-Ready_example : Ready 2 (true, two)
init-Ready_example = init-Ready 2 (λ n. connected (10 + n)) true (true, two) init-two

init_returns_example :
    ((r : Bool × DatabasePool) × (init (λ n. connected n) true (database_pool 1) ≡ some r))
    × (init (λ n. connected n) true (database_pool 0) ≡ none)
init_returns_example = init_returns 0 (λ n. connected n) true

-- The second connection is refused.
abbrev one_refused : ℕ → Connect
one_refused n = if n == 1 then refused 11 else connected 10

refused-init :
    init one_refused true (database_pool 2)
    ≡ some (false, record (database_pool 2) { all = 10 ∷ []; available = 10 ∷ [] })
unfolding init connect_loop
refused-init = refl

init-destroy_pool_example :
    count 11 (handles_made 2 one_refused 0)
    ≡ count 11 (closed_by_loop 2 one_refused 0)
      + count 11 (destroy_pool (record (database_pool 2) { all = 10 ∷ []; available = 10 ∷ [] }))
init-destroy_pool_example =
    init-destroy_pool 2 one_refused true
      (false, record (database_pool 2) { all = 10 ∷ []; available = 10 ∷ [] }) refused-init 11
