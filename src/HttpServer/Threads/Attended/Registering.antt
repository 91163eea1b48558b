-- ===== src/HttpServer/Threads/Attended/Registering.antt =====
-- The loop's hand-over of a task and its registration of a client (`dispatchRead`, `handleAccept`).
use mini_server.Prelude.{
  ℕ, ◌≡◌, refl, sym, ap, subst, ◌≢◌, inl, inr, true, [], ◌∷◌, ◌++◌, arith, ==-refl, some_eq,
  sum-append,
}
use mini_server.Bytes.{Bytes}
use mini_server.Connection.{connection}
use mini_server.Epoller.{Interest, absent, disarmed, readable_once, writable_once, added, epoll_add}
use mini_server.HttpServer.{Task}
use mini_server.HttpServer.Phases.{set_at_self, set_at_ne}
use mini_server.HttpServer.Threads.{Shared}
use mini_server.HttpServer.Threads.System.{
  fails, register, System, waiting, enqueueing, registering, adding, Arrival, task_fd, tasks_at,
  loop_step,
}
use mini_server.HttpServer.Threads.Ownership.{register-cases, Owner, IsOwned}
use mini_server.HttpServer.Threads.Local.{only_interest-OnlyAt}
use mini_server.HttpServer.Threads.Attended.{
  to_close, IsHeld, by_kernel, by_queue, by_loop, by_closing, by_worker, IsAttended,
}
use mini_server.HttpServer.Threads.Attended.Turns.{turn-IsAttended}
use mini_server.HttpServer.Threads.Attended.Arriving.{Keeps, not_closing}

module _ (s : System) (a : IsAttended s) where
  queued_held :
      (t : Task) (k : ℕ)
      → s.loop ≡ enqueueing t
      → IsHeld s k
      → IsHeld
          (record s {
            shared = record s.shared { tasks = s.shared.tasks ++ t ∷ [] };
            loop = waiting;
          })
          k
  queued_held t k e (by_kernel armed) = by_kernel armed
  queued_held t k e (by_queue some_task) =
      by_queue (omega (arith, some_task, sum-append (tasks_at k) s.shared.tasks (t ∷ [])))
  queued_held t k e (by_loop x) =
      let own : task_fd t ≡ k = some_eq (rw e at x) in
      let same : tasks_at k t ≡ 1 = rw (own, ==-refl k) refl in
      by_queue (omega (arith, same, sum-append (tasks_at k) s.shared.tasks (t ∷ [])))
  queued_held t k e (by_closing x) = absurd (not_closing s a (ap to_close e) k x)
  queued_held t k e (by_worker w x) = by_worker w x

  pub enqueueing-Keeps :
      (t : Task)
      → s.loop ≡ enqueueing t
      → Keeps s a (waiting, record s.shared { tasks = s.shared.tasks ++ t ∷ [] })
  enqueueing-Keeps t e = record {
    is_open = a.is_open;
    registered = λ k there. elim (a.registered k there) [
      | inl known ↦ inl known
      | inr new_one ↦ cc (rw e at new_one)
    ];
    fits = a.fits;
    removed = λ k x. cc x;
    unregistered = λ k x. cc x;
    held = λ k there. queued_held t k e (a.held k there);
  }

  added-there : (i : Interest) → added readable_once i ≢ absent
  added-there absent e = cc e
  added-there disarmed e = cc e
  added-there readable_once e = cc e
  added-there writable_once e = cc e

  register_lem :
      (x : Arrival) (fd : ℕ) (t : Shared)
      → x ≢ fails
      → register x fd t ≡ record t { interest = epoll_add fd readable_once t.interest }
  register_lem x fd t succeeds = elim (register-cases x fd t) [
    | inl refused ↦ absurd (succeeds refused)
    | inr done ↦ done
  ]

  pub adding-Keeps :
      (now fd : ℕ) (x : Arrival)
      → s.loop ≡ adding fd
      → x ≢ fails
      → Keeps s a (loop_step now x (adding fd) s.shared)
  unfolding loop_step epoll_add
  adding-Keeps now fd x e succeeds =
      let i = added readable_once (s.shared.interest fd) in
      let free : s.shared.interest fd ≡ absent = a.unregistered fd (rw e refl) in
      let done = register_lem x fd s.shared succeeds in
      subst (λ t. Keeps s a (waiting, t)) (sym done)
        (turn-IsAttended s a fd waiting _ (only_interest-OnlyAt fd i s.shared) (record {
          still_open = a.is_open fd;
          still_there = λ there. inl (λ y.
              added-there (s.shared.interest fd) (rw (set_at_self fd i s.shared.interest) at y));
          has = λ there. by_kernel (rw (set_at_self fd i s.shared.interest, free) refl);
          fit = λ w here. a.fits w;
          other_table = λ j n. refl;
          was_at = λ k y. some_eq (rw e at y);
          rest = λ k n more. absurd (not_closing s a (ap to_close e) k more);
          off = λ k y. cc y;
          new = λ k y. cc y;
        }))

  module _ (owner : ℕ → Owner) (h : IsOwned owner s) where
    pub registering-Keeps :
        (now fd : ℕ) (ip : Bytes) (x : Arrival)
        → s.loop ≡ registering fd ip
        → Keeps s a (loop_step now x (registering fd ip) s.shared)
    unfolding loop_step connection
    registering-Keeps now fd ip x e =
        let c = connection fd ip now in
        turn-IsAttended s a fd (adding fd) _
          (record {
            other_object = set_at_ne fd c s.shared.objects;
            other_interest = λ j n. refl;
            same_tasks = refl;
          })
          (record {
            still_open = λ there. rw (set_at_self fd c s.shared.objects) refl;
            still_there = λ there. inr refl;
            has = λ there. by_loop refl;
            fit = λ w here. cc (h.workers_own w fd here, h.loop_owns fd (rw e refl));
            other_table = set_at_ne fd true s.shared.table;
            was_at = λ k y. some_eq (rw e at y);
            rest = λ k n more. absurd (not_closing s a (ap to_close e) k more);
            off = λ k y. cc y;
            new = λ k y. rw (← some_eq y) (a.unregistered fd (rw e refl));
          })
