-- ===== src/HttpServer/Threads/Looping.antt =====
-- The loop's steps at a descriptor and the taking of a task, and the owners behind them.
use mini_server.Prelude.{
  ℕ, ◌+◌, ◌≤◌, ◌<◌, ◌≡◌, refl, sym, ap, ◌∙◌, subst, ◌≢◌, inl, inr, true, some, List, ◌∷◌, arith,
  ==-refl, ==→eq, All, Bool-cases, one_if, some_eq, sum, ◌==◌,
}
use mini_server.Epoller.{set_at}
use mini_server.HttpServer.{Task, reads, writes}
use mini_server.HttpServer.Phases.{set_at_self, set_at_ne}
use mini_server.HttpServer.Threads.{Shared, begun}
use mini_server.HttpServer.Threads.System.{System, Loop, task_fd, tasks_at, worker_at}
use mini_server.HttpServer.Threads.Ownership.{
  Owner, nobody, kernel, loop_thread, queue, worker, queued, is_armed, IsRested, IsWorker, IsTask,
  loop_at, IsLoop, IsOwned, OnlyAt, IsWorker-other, tasks-other,
}
use mini_server.HttpServer.Threads.Owned.{split_at}

queued_is : (v : Owner) → 0 < queued v → v ≡ queue
queued_is queue h = refl
queued_is nobody h = absurd (omega arith)
queued_is kernel h = absurd (omega arith)
queued_is loop_thread h = absurd (omega arith)
queued_is (worker w) h = absurd (omega arith)

-- An idle worker takes the first task.
module _ (owner : ℕ → Owner) (s : System) (h : IsOwned owner s) (w : ℕ) (t : Task) (ts : List Task)
    (first : s.shared.tasks ≡ t ∷ ts) where
  abbrev taken : System
  taken = record s {
    shared = record s.shared { tasks = ts };
    workers = set_at w (begun t) s.workers;
  }

  fewer : (k : ℕ) → one_if (task_fd t == k) + sum (tasks_at k) ts ≤ queued (owner k)
  fewer k = rw first at (h.queue_owns k)

  in_queue : owner (task_fd t) ≡ queue
  in_queue =
      let own = ==-refl (task_fd t) in
      let few = rw own at (fewer (task_fd t)) in queued_is (owner (task_fd t)) (omega arith)

  begun_at : (u : Task) (k : ℕ) → worker_at (begun u) ≡ some k → task_fd u ≡ k
  begun_at (reads fd) k e = some_eq e
  begun_at (writes fd) k e = some_eq e

  begun-IsWorker : (u : Task) → IsTask s.shared.objects u → IsWorker (begun u) s.shared.objects
  begun-IsWorker (reads fd) k = k
  begun-IsWorker (writes fd) k = tt

  taken_owns :
      (j k : ℕ)
      → worker_at (set_at w (begun t) s.workers j) ≡ some k
      → set_at (task_fd t) (worker w) owner k ≡ worker j
  taken_owns j k e = elim (Bool-cases (w == j)) [
    | inl own ↦
        let same = begun_at t k (rw own at e) in
        rw (← same, set_at_self (task_fd t) (worker w) owner, ==→eq w j own) refl
    | inr other ↦
        let off : worker_at (s.workers j) ≡ some k = rw other at e in
        let n : task_fd t ≢ k = λ same. cc (in_queue, h.workers_own j k off, ap owner same) in
        rw (set_at_ne (task_fd t) (worker w) owner k n) (h.workers_own j k off)
  ]

  pub take-IsOwned : IsOwned (set_at (task_fd t) (worker w) owner) taken
  take-IsOwned =
      let ready : All (IsTask s.shared.objects) (t ∷ ts) =
        subst (All (IsTask s.shared.objects)) first h.queue_ok in
      record {
        workers_own = taken_owns;
        workers_ok =
            split_at w (λ j. IsWorker (set_at w (begun t) s.workers j) s.shared.objects)
              (rw (set_at_self w (begun t) s.workers) (begun-IsWorker t ready.0))
              (λ j n. rw (set_at_ne w (begun t) s.workers j n) (h.workers_ok j));
        queue_owns =
            split_at (task_fd t)
              (λ k. sum (tasks_at k) ts ≤ queued (set_at (task_fd t) (worker w) owner k))
              (rw (set_at_self (task_fd t) (worker w) owner) (
                let own = ==-refl (task_fd t) in
                let few = rw own at (fewer (task_fd t)) in
                let one = ap queued in_queue in omega arith))
              (λ k n.
                rw (set_at_ne (task_fd t) (worker w) owner k n) (let few = fewer k in omega arith));
        queue_ok = ready.1;
        armed_owns =
            split_at (task_fd t)
              (λ k.
                is_armed (s.shared.interest k) ≡ true
                → set_at (task_fd t) (worker w) owner k ≡ kernel)
              (λ a. cc (in_queue, h.armed_owns (task_fd t) a))
              (λ k n. rw (set_at_ne (task_fd t) (worker w) owner k n) (h.armed_owns k));
        armed_ok = h.armed_ok;
        loop_owns =
            split_at (task_fd t)
              (λ k. loop_at s.loop ≡ some k → set_at (task_fd t) (worker w) owner k ≡ loop_thread)
              (λ a. cc (in_queue, h.loop_owns (task_fd t) a))
              (λ k n. rw (set_at_ne (task_fd t) (worker w) owner k n) (h.loop_owns k));
        loop_ok = h.loop_ok;
      }

-- How the loop leaves a descriptor that no worker and no task is at.
pub record LoopLeaves (fd : ℕ) (l : Loop) (t : Shared) (v : Owner) : Type 0 where
  pub stays : (k : ℕ) → loop_at l ≡ some k → (fd ≡ k) × (v ≡ loop_thread)
  pub ok : IsLoop l t.objects
  pub armed : is_armed (t.interest fd) ≡ true → v ≡ kernel
  pub rested : IsRested (t.interest fd) (t.objects fd)

module _ (owner : ℕ → Owner) (s : System) (h : IsOwned owner s) (fd : ℕ) (l : Loop) (t : Shared)
    (v : Owner) (no_worker : (w : ℕ) → worker_at (s.workers w) ≢ some fd)
    (no_task : sum (tasks_at fd) s.shared.tasks ≡ 0) (only : OnlyAt fd s.shared t)
    (left : LoopLeaves fd l t v) where
  pub loop-IsOwned : IsOwned (set_at fd v owner) (record s { shared = t; loop = l })
  loop-IsOwned = record {
    workers_own = λ w k e.
        rw (set_at_ne fd v owner k (λ x. no_worker w (e ∙ ap some (sym x)))) (h.workers_own w k e);
    workers_ok = λ w.
        IsWorker-other (s.workers w) s.shared.objects t.objects fd only.other_object (no_worker w)
          (h.workers_ok w);
    queue_owns =
        split_at fd (λ k. sum (tasks_at k) t.tasks ≤ queued (set_at fd v owner k))
          (rw only.same_tasks (omega (arith, no_task)))
          (λ k n. rw (only.same_tasks, set_at_ne fd v owner k n) (h.queue_owns k));
    queue_ok = rw only.same_tasks (
        tasks-other s.shared.objects t.objects fd s.shared.tasks only.other_object no_task
          h.queue_ok);
    armed_owns =
        split_at fd (λ k. is_armed (t.interest k) ≡ true → set_at fd v owner k ≡ kernel)
          (λ a. rw (set_at_self fd v owner) (left.armed a))
          (λ k n. rw (set_at_ne fd v owner k n, only.other_interest k n) (h.armed_owns k));
    armed_ok =
        split_at fd (λ k. IsRested (t.interest k) (t.objects k)) left.rested
          (λ k n. rw (only.other_interest k n, only.other_object k n) (h.armed_ok k));
    loop_owns =
        λ k e. let (same, loops) = left.stays k e in rw (← same, set_at_self fd v owner) loops;
    loop_ok = left.ok;
  }
