-- ===== src/ThreadPool/Tests.antt =====
-- Runs of the thread pool, and its theorems at concrete inputs.
use mini_server.Prelude.{ℕ, ◌≤◌, ◌≡◌, refl, true, some, List, [], ◌∷◌, arith, count, length}
use mini_server.ThreadPool.{
  ThreadPool, waiting, running, Event, enqueues, stops, works, step, enqueue, request_stop, wake,
  work, start, join_all,
}
use mini_server.ThreadPool.Drain.{started, trace-started-IsSound}
use mini_server.ThreadPool.Trace.{IsSound, trace}
use mini_server.ThreadPool.Join.{work_left, work_all, join_all_returns, join_all-runs_all}

-- Two workers; a task handed in behind `stop` is refused.
abbrev events : List Event
events =
    enqueues 5
    ∷ enqueues 6
    ∷ works 1
    ∷ stops
    ∷ enqueues 7
    ∷ works 0
    ∷ works 0
    ∷ works 0
    ∷ works 1
    ∷ works 1
    ∷ []

joined_pool :
    join_all (trace (started 2) events).pool
    ≡ some (record { thread_count = 2; stopping = true; tasks = []; workers = [] })
unfolding join_all trace step enqueue request_stop wake work start
joined_pool = refl

ended_tasks : (trace (started 2) events).ended ≡ 6 ∷ 5 ∷ []
unfolding trace step enqueue request_stop wake work start
ended_tasks = refl

join_all-runs_all_example :
    (◌≡◌ {A = List ℕ} [] [])
    × ((a : ℕ)
        → count a (trace (started 2) events).ended ≡ count a (trace (started 2) events).accepted)
join_all-runs_all_example =
    join_all-runs_all 2 events
      (record { thread_count = 2; stopping = true; tasks = []; workers = [] }) (omega arith)
      joined_pool

trace-started-IsSound_example : IsSound (trace (started 2) events)
trace-started-IsSound_example = trace-started-IsSound 2 events

abbrev stopping_pool : ThreadPool
stopping_pool = record {
  thread_count = 2;
  stopping = true;
  tasks = 3 ∷ [];
  workers = waiting ∷ running 4 ∷ [];
}

join_all_returns_example :
    (order : List ℕ) × (q : ThreadPool) × (join_all (work_all order stopping_pool) ≡ some q)
    × (length order ≤ work_left stopping_pool)
join_all_returns_example = join_all_returns stopping_pool refl
