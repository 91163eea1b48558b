-- ===== src/ThreadPool/Trace.antt =====
-- The pool with the history of its tasks: accepted, begun and ended.
use mini_server.Prelude.{
  ℕ, ◌+◌, ◌≡◌, ◌⊎◌, true, Option, some, List, [], ◌∷◌, ◌++◌, count, get_elem?, if◌then◌else◌,
  one_if, sum, ◌==◌,
}
use mini_server.ThreadPool.{
  ThreadPool, Worker, waiting, running, exited, Wake, takes, Event, enqueues, works, wake, step,
}

-- The task that an event accepts, starts or ends, in the state in which it happens.
abbrev pub accepts : ThreadPool → Event → List ℕ
accepts p (enqueues task) = if p.stopping then [] else task ∷ []
accepts p _ = []

abbrev pub taken : Wake → List ℕ
taken (takes t ts) = t ∷ []
taken _ = []

abbrev pub taken_by : Option Worker → ThreadPool → List ℕ
taken_by (some waiting) p = taken (wake p.stopping p.tasks)
taken_by _ p = []

abbrev pub begins : ThreadPool → Event → List ℕ
begins p (works i) = taken_by (get_elem? p.workers i) p
begins p _ = []

abbrev pub ended_by : Option Worker → List ℕ
ended_by (some (running t)) = t ∷ []
ended_by _ = []

abbrev pub ends : ThreadPool → Event → List ℕ
ends p (works i) = ended_by (get_elem? p.workers i)
ends p _ = []

-- A pool with the history of its tasks.
pub record Traced : Type 0 where
  pub pool : ThreadPool
  pub accepted : List ℕ
  pub begun : List ℕ
  pub ended : List ℕ

abbrev pub traced_step : Traced → Event → Traced
traced_step s e = record {
  pool = step s.pool e;
  accepted = s.accepted ++ accepts s.pool e;
  begun = s.begun ++ begins s.pool e;
  ended = s.ended ++ ends s.pool e;
}

unfoldable pub trace : Traced → List Event → Traced
trace s [] = s
trace s (e ∷ es) = trace (traced_step s e) es

-- How often a worker runs the task.
abbrev pub runs : ℕ → Worker → ℕ
runs a (running t) = one_if (t == a)
runs a _ = 0

-- One for a worker that has returned.
abbrev pub is_gone : Worker → ℕ
is_gone exited = 1
is_gone _ = 0

abbrev pub IsDrained : ThreadPool → Type 0
IsDrained p = (p.stopping ≡ true) × (p.tasks ≡ [])

pub record IsSound (s : Traced) : Type 0 where
  pub in_order : s.accepted ≡ s.begun ++ s.pool.tasks
  pub once : (a : ℕ) → count a s.begun ≡ count a s.ended + sum (runs a) s.pool.workers
  pub drained : (sum is_gone s.pool.workers ≡ 0) ⊎ IsDrained s.pool
