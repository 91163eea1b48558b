-- ===== src/ThreadPool.antt =====
-- thread_pool.h and thread_pool.cpp: a queue of tasks and a fixed number of worker threads.
-- A task is a number, its run lasts from one step of its worker to another. Each stretch of code that
-- holds the mutex is one step; the condition variable only decides when a worker looks again, so a
-- worker may look at any time, and goes on exactly when its predicate holds.
pub mod Trace
pub mod Drain
pub mod Join
mod Tests
use mini_server.Prelude.{
  ℕ, zero, suc, Bool, true, false, Option, none, some, List, [], ◌∷◌, ◌++◌, get_elem?,
  if◌then◌else◌, set,
}

-- Where a worker stands in `workerLoop`.
pub data Worker : Type 0 where
  waiting : Worker
  running : ℕ → Worker
  exited : Worker

pub record ThreadPool : Type 0 where
  pub thread_count : ℕ
  pub stopping : Bool
  pub tasks : List ℕ
  pub workers : List Worker

-- ThreadPool(threadCount)
abbrev pub thread_pool : ℕ → ThreadPool
thread_pool n = record { thread_count = n; stopping = false; tasks = []; workers = [] }

abbrev pub spawn : ℕ → List Worker → List Worker
spawn zero ws = ws
spawn (suc i) ws = spawn i (ws ++ waiting ∷ [])

unfoldable pub start : ThreadPool → ThreadPool
start p = record p { workers = spawn p.thread_count p.workers }

-- The first part of `stop`, under the mutex; the second, `join_all`, waits for the workers.
unfoldable pub request_stop : ThreadPool → ThreadPool
request_stop p = record p { stopping = true }

abbrev pub all_exited : List Worker → Bool
all_exited [] = true
all_exited (exited ∷ ws) = all_exited ws
all_exited (_ ∷ ws) = false

-- The joins return when every worker has returned; then the threads are cleared.
unfoldable pub join_all : ThreadPool → Option ThreadPool
join_all p = if all_exited p.workers then some (record p { workers = [] }) else none

unfoldable pub enqueue : ℕ → ThreadPool → ThreadPool
enqueue task p = if p.stopping then p else record p { tasks = p.tasks ++ task ∷ [] }

-- What a worker finds when it looks at the queue.
pub data Wake : Type 0 where
  sleeps : Wake
  leaves : Wake
  takes : ℕ → List ℕ → Wake

-- The predicate of the wait, the test behind it, and `front` and `pop`.
unfoldable pub wake : Bool → List ℕ → Wake
wake false [] = sleeps
wake true [] = leaves
wake _ (t ∷ ts) = takes t ts

abbrev pub after_wake : ℕ → Wake → ThreadPool → ThreadPool
after_wake i sleeps p = p
after_wake i leaves p = record p { workers = set p.workers i exited }
after_wake i (takes t ts) p = record p { tasks = ts; workers = set p.workers i (running t) }

-- One step of a worker: it looks at the queue, or its task returns and it goes back to the wait.
abbrev pub work_as : ℕ → Option Worker → ThreadPool → ThreadPool
work_as i (some waiting) p = after_wake i (wake p.stopping p.tasks) p
work_as i (some (running t)) p = record p { workers = set p.workers i waiting }
work_as i _ p = p

unfoldable pub work : ℕ → ThreadPool → ThreadPool
work i p = work_as i (get_elem? p.workers i) p

-- What can happen, in any order: a caller hands in a task, `stop` begins, a worker takes a step.
pub data Event : Type 0 where
  enqueues : ℕ → Event
  stops : Event
  works : ℕ → Event

unfoldable pub step : ThreadPool → Event → ThreadPool
step p (enqueues task) = enqueue task p
step p stops = request_stop p
step p (works i) = work i p
