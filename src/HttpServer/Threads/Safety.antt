-- ===== src/HttpServer/Threads/Safety.antt =====
-- The handlers, the events and the responses of http_server.cpp, in the states that the threads reach.
use mini_server.Prelude.{
  ℕ, ◌≡◌, ap, subst, ◌≢◌, inl, inr, true, false, some, [], arith, Bool-cases, sum,
}
use mini_server.Bytes.{Bytes}
use mini_server.Connection.{Connection, set_processing}
use mini_server.Connection.Sending.{remaining}
use mini_server.HttpServer.{Task, reads, writes, begin_processing}
use mini_server.HttpServer.Phases.Dispatching.{begins}
use mini_server.HttpServer.Threads.{answering, at}
use mini_server.HttpServer.Threads.System.{
  ReusesNone, System, beginning, task_fd, tasks_at, worker_at, system, Reaches,
}
use mini_server.HttpServer.Threads.Ownership.{
  queued, is_armed, IsRested, armed_for, IsWorker, loop_at, IsLoop,
}
use mini_server.HttpServer.Threads.Exclusion.{Reaches-IsOwned}

pub armed_for-rests :
    (t : Task) (c : Connection) → IsRested (armed_for t) c → c.closed ≡ false → c.processing ≡ false
armed_for-rests (reads fd) c h = h.0
armed_for-rests (writes fd) c h = h

module _ (idle_timeout : ℕ) (root : Bytes) (s : System) (r : Reaches (system idle_timeout root) s)
    (n : ReusesNone r) where
  -- In every state that the threads reach, in any order of their steps, if no descriptor that a task or a
  -- worker still has is accepted again: while a worker is at a descriptor no other worker is, no task for it
  -- is in the queue, it is not armed, and the loop does not dispatch or accept it.
  pub Reaches-exclusive :
      (w fd : ℕ)
      → worker_at (s.workers w) ≡ some fd
      → ((j : ℕ) → worker_at (s.workers j) ≡ some fd → w ≡ j)
        × (sum (tasks_at fd) s.shared.tasks ≡ 0)
        × (is_armed (s.shared.interest fd) ≡ false)
        × (loop_at s.loop ≢ some fd)
  Reaches-exclusive w fd here =
      let (owner, h) = Reaches-IsOwned idle_timeout root s r n in
      let mine = h.workers_own w fd here in
      (
        λ j there. cc (mine, h.workers_own j fd there),
        omega (arith, h.queue_owns fd, ap queued mine),
        elim (Bool-cases (is_armed (s.shared.interest fd))) [
          | inl armed ↦ cc (mine, h.armed_owns fd armed)
          | inr not_armed ↦ not_armed
        ],
        λ e. cc (mine, h.loop_owns fd e),
      )

  -- In every state that the threads reach, in any order of their steps, if no descriptor that a task or a
  -- worker still has is accepted again: when the loop comes to `beginProcessing` for a reported connection
  -- that is still open, it succeeds, so no event is lost.
  pub Reaches-begins :
      (t : Task)
      → s.loop ≡ beginning t
      → (s.shared.objects (task_fd t)).closed ≡ false
      → begin_processing (s.shared.objects (task_fd t))
        ≡ some (set_processing true (s.shared.objects (task_fd t)))
  Reaches-begins t e open_now =
      let (owner, h) = Reaches-IsOwned idle_timeout root s r n in
      let c = s.shared.objects (task_fd t) in
      begins c open_now
        (armed_for-rests t c (subst (λ l. IsLoop l s.shared.objects) e h.loop_ok) open_now)

  -- In every state that the threads reach, in any order of their steps, if no descriptor that a task or a
  -- worker still has is accepted again: when a worker that has extracted a request comes to its answer,
  -- nothing is left to send, so no response is overwritten.
  pub Reaches-answers :
      (w fd : ℕ) (raw : Bytes)
      → s.workers w ≡ at fd (answering raw)
      → remaining (s.shared.objects fd) ≡ []
  Reaches-answers w fd raw e =
      let (owner, h) = Reaches-IsOwned idle_timeout root s r n in
      subst (λ p. IsWorker p s.shared.objects) e (h.workers_ok w)
