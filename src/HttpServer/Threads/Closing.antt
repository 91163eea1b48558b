-- ===== src/HttpServer/Threads/Closing.antt =====
-- The loop's other steps: it hands over a task, turns to something else, or closes a connection that may
-- be anyone's.
use mini_server.Prelude.{
  ℕ, ◌≤◌, ◌≡◌, refl, ap, true, none, some, List, [], ◌∷◌, ◌++◌, arith, ==-refl, All, All-append,
  ne→==, sum, sum-append,
}
use mini_server.Connection.{Connection, mark_closed}
use mini_server.Connection.Sending.{remaining}
use mini_server.Epoller.{Interest, absent, disarmed, readable_once, writable_once, set_at}
use mini_server.HttpServer.{Task, reads, writes}
use mini_server.HttpServer.Phases.{set_at_self, set_at_ne}
use mini_server.HttpServer.Threads.{
  Stage, getting_to_read, reading, renewing, getting_to_process, extracting, answering, answered,
  getting_to_write, testing, sending, consuming, blocked, clearing, settled, finishing, arming,
  closing, marking, deleting, shutting, Worker, idle, at, Shared, unregister, set_object,
}
use mini_server.HttpServer.Threads.System.{System, Loop, waiting, task_fd, tasks_at}
use mini_server.HttpServer.Threads.Ownership.{
  Owner, kernel, loop_thread, queue, queued, is_armed, IsRested, IsAtStage, IsWorker, IsTask,
  loop_at, IsLoop, IsOwned,
}
use mini_server.HttpServer.Threads.Owned.{split_at}

module _ (owner : ℕ → Owner) (s : System) (h : IsOwned owner s) where
  -- Only the timers, the table and the loop's place change.
  pub turn-IsOwned :
      (t : Shared) (l : Loop)
      → t.objects ≡ s.shared.objects
      → t.interest ≡ s.shared.interest
      → t.tasks ≡ s.shared.tasks
      → ((k : ℕ) → loop_at l ≡ some k → owner k ≡ loop_thread)
      → IsLoop l s.shared.objects
      → IsOwned owner (record s { shared = t; loop = l })
  turn-IsOwned t l o i q owns ok = record {
    workers_own = h.workers_own;
    workers_ok = λ w. rw o (h.workers_ok w);
    queue_owns = λ k. rw q (h.queue_owns k);
    queue_ok = rw (q, o) h.queue_ok;
    armed_owns = λ k. rw i (h.armed_owns k);
    armed_ok = λ k. rw (i, o) (h.armed_ok k);
    loop_owns = owns;
    loop_ok = rw o ok;
  }

  -- The task goes to the end of the queue.
  pub enqueue-IsOwned :
      (t : Task)
      → owner (task_fd t) ≡ loop_thread
      → IsTask s.shared.objects t
      → IsOwned (set_at (task_fd t) queue owner) (record s {
        shared = record s.shared { tasks = s.shared.tasks ++ t ∷ [] };
        loop = waiting;
      })
  enqueue-IsOwned t mine ready =
      let fd = task_fd t in
      let own = ==-refl fd in
      record {
        workers_own = λ w k e.
            rw (set_at_ne fd queue owner k (λ same. cc (mine, h.workers_own w k e, ap owner same)))
              (h.workers_own w k e);
        workers_ok = h.workers_ok;
        queue_owns =
            split_at fd
              (λ k. sum (tasks_at k) (s.shared.tasks ++ t ∷ []) ≤ queued (set_at fd queue owner k))
              (rw (set_at_self fd queue owner) (
                let one : tasks_at fd t ≡ 1 = rw own refl in
                omega (
                  arith,
                  sum-append (tasks_at fd) s.shared.tasks (t ∷ []),
                  h.queue_owns fd,
                  ap queued mine,
                )))
              (λ k n.
                let none_here : tasks_at k t ≡ 0 = rw (ne→== fd k n) refl in
                rw (set_at_ne fd queue owner k n)
                  (omega (arith, sum-append (tasks_at k) s.shared.tasks (t ∷ []), h.queue_owns k)));
        queue_ok =
            All-append (IsTask s.shared.objects) s.shared.tasks (t ∷ []) h.queue_ok (ready, tt);
        armed_owns =
            split_at fd
              (λ k. is_armed (s.shared.interest k) ≡ true → set_at fd queue owner k ≡ kernel)
              (λ a. cc (mine, h.armed_owns fd a))
              (λ k n. rw (set_at_ne fd queue owner k n) (h.armed_owns k));
        armed_ok = h.armed_ok;
        loop_owns = λ k e. cc e;
        loop_ok = tt;
      }

-- A closed connection satisfies whatever an open one did.
marked-IsRested : (i : Interest) (c : Connection) → IsRested i c → IsRested i (mark_closed c)
unfolding remaining
marked-IsRested absent c h = tt
marked-IsRested disarmed c h = tt
marked-IsRested readable_once c h = (λ e. cc e, h.1)
marked-IsRested writable_once c h = λ e. cc e

marked-IsAtStage : (st : Stage) (c : Connection) → IsAtStage st c → IsAtStage st (mark_closed c)
unfolding remaining
marked-IsAtStage getting_to_read c h = h
marked-IsAtStage reading c h = h
marked-IsAtStage renewing c h = h
marked-IsAtStage getting_to_process c h = h
marked-IsAtStage extracting c h = h
marked-IsAtStage (answering raw) c h = h
marked-IsAtStage answered c h = tt
marked-IsAtStage getting_to_write c h = tt
marked-IsAtStage testing c h = tt
marked-IsAtStage sending c h = tt
marked-IsAtStage (consuming n) c h = tt
marked-IsAtStage blocked c h = tt
marked-IsAtStage clearing c h = tt
marked-IsAtStage (settled closes pending) c h = h
marked-IsAtStage finishing c h = h
marked-IsAtStage (arming wanted) c h = marked-IsRested wanted c h
marked-IsAtStage closing c h = tt
marked-IsAtStage marking c h = tt
marked-IsAtStage deleting c h = tt
marked-IsAtStage shutting c h = tt

module _ (owner : ℕ → Owner) (s : System) (h : IsOwned owner s) (fd : ℕ) where
  abbrev marked : ℕ → Connection
  marked = set_at fd (mark_closed (s.shared.objects fd)) s.shared.objects

  -- What holds of every closed connection that it held of holds of each one now.
  marked_at :
      (P : Connection → Type 0) (k : ℕ)
      → ((c : Connection) → P c → P (mark_closed c))
      → P (s.shared.objects k)
      → P (marked k)
  marked_at P k keeps p =
      split_at fd (λ j. P (s.shared.objects j) → P (marked j))
        (λ q.
          rw (set_at_self fd (mark_closed (s.shared.objects fd)) s.shared.objects)
            (keeps (s.shared.objects fd) q))
        (λ j n q. rw (set_at_ne fd (mark_closed (s.shared.objects fd)) s.shared.objects j n) q) k p

  marked-IsWorker : (p : Worker) → IsWorker p s.shared.objects → IsWorker p marked
  marked-IsWorker idle k = tt
  marked-IsWorker (at j st) k = marked_at (IsAtStage st) j (marked-IsAtStage st) k

  marked-tasks : (ts : List Task) → All (IsTask s.shared.objects) ts → All (IsTask marked) ts
  unfolding remaining
  marked-tasks [] k = tt
  marked-tasks (reads j ∷ ts) k =
      (marked_at (λ c. remaining c ≡ []) j (λ c q. q) k.0, marked-tasks ts k.1)
  marked-tasks (writes j ∷ ts) k = (tt, marked-tasks ts k.1)

  pub mark-IsOwned :
      (l : Loop)
      → loop_at l ≡ none
      → IsLoop l marked
      → IsOwned owner (record s {
        shared = set_object fd (mark_closed (s.shared.objects fd)) s.shared;
        loop = l;
      })
  mark-IsOwned l nowhere ok = record {
    workers_own = h.workers_own;
    workers_ok = λ w. marked-IsWorker (s.workers w) (h.workers_ok w);
    queue_owns = h.queue_owns;
    queue_ok = marked-tasks s.shared.tasks h.queue_ok;
    armed_owns = h.armed_owns;
    armed_ok = λ k.
        marked_at (IsRested (s.shared.interest k)) k (marked-IsRested (s.shared.interest k))
          (h.armed_ok k);
    loop_owns = λ k e. cc (nowhere, e);
    loop_ok = ok;
  }

  pub unregister-IsOwned :
      (l : Loop)
      → loop_at l ≡ none
      → IsLoop l s.shared.objects
      → IsOwned owner (record s { shared = unregister fd s.shared; loop = l })
  unregister-IsOwned l nowhere ok = record {
    workers_own = h.workers_own;
    workers_ok = h.workers_ok;
    queue_owns = h.queue_owns;
    queue_ok = h.queue_ok;
    armed_owns =
        split_at fd (λ k. is_armed (set_at fd absent s.shared.interest k) ≡ true → owner k ≡ kernel)
          (λ a. cc (rw (set_at_self fd absent s.shared.interest) at a))
          (λ k n. rw (set_at_ne fd absent s.shared.interest k n) (h.armed_owns k));
    armed_ok =
        split_at fd (λ k. IsRested (set_at fd absent s.shared.interest k) (s.shared.objects k))
          (rw (set_at_self fd absent s.shared.interest) tt)
          (λ k n. rw (set_at_ne fd absent s.shared.interest k n) (h.armed_ok k));
    loop_owns = λ k e. cc (nowhere, e);
    loop_ok = ok;
  }
