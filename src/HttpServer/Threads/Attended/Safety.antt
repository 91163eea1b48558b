-- ===== src/HttpServer/Threads/Attended/Safety.antt =====
-- The threads of http_server.cpp in any order, and the connections of the table.
use mini_server.Prelude.{
  ℕ, ◌<◌, ◌≡◌, refl, sym, ap, ◌∙◌, subst, ◌≢◌, ◌⊎◌, inl, inr, Bool, true, false, some, List, [],
  ◌∷◌, arith, ==→eq, Bool-cases, sum, ◌==◌,
}
use mini_server.Bytes.{Bytes}
use mini_server.Epoller.{set_at, absent}
use mini_server.HttpServer.{Outside, Task, reads, writes}
use mini_server.HttpServer.Phases.{set_at_self, set_at_ne}
use mini_server.HttpServer.Threads.{Worker, idle, at, Answer, begun, take_task, work}
use mini_server.HttpServer.Threads.System.{
  AddsAt, AddsAll, ReusesNone, System, Loop, waiting, looking, beginning, enqueueing, registering,
  adding, closing_each, marking_first, deleting_first, shutting_first, Arrival, Move, works, loops,
  task_fd, tasks_at, worker_at, loop_step, move, system, Reaches, starts, moves,
}
use mini_server.HttpServer.Threads.Ownership.{fair-IsSafe, IsSafe, Owner, IsOwned}
use mini_server.HttpServer.Threads.Owned.{split_at}
use mini_server.HttpServer.Threads.Local.{work_at-OnlyAt}
use mini_server.HttpServer.Threads.Exclusion.{Reaches-IsOwned}
use mini_server.HttpServer.Threads.Attended.{
  registers_at, WorkerFits, IsHeld, by_kernel, by_queue, by_loop, by_closing, by_worker, IsAttended,
  worker-IsAttended,
}
use mini_server.HttpServer.Threads.Attended.Work.{work_at-Leaves}
use mini_server.HttpServer.Threads.Attended.Arriving.{Keeps, arrive-Keeps}
use mini_server.HttpServer.Threads.Attended.Dispatching.{looking-Keeps, begin_task-Keeps}
use mini_server.HttpServer.Threads.Attended.Registering.{
  enqueueing-Keeps, adding-Keeps, registering-Keeps,
}
use mini_server.HttpServer.Threads.Attended.Closing.{
  close_next-Keeps, marking-Keeps, deleting-Keeps, shutting-Keeps,
}

begun_at : (t : Task) → worker_at (begun t) ≡ some (task_fd t)
begun_at (reads fd) = refl
begun_at (writes fd) = refl

begun_fits : (t : Task) (table : ℕ → Bool) → WorkerFits (begun t) table
begun_fits (reads fd) table = tt
begun_fits (writes fd) table = tt

module _ (owner : ℕ → Owner) (s : System) (h : IsOwned owner s) (a : IsAttended s) where
  loop_step-Keeps :
      (now : ℕ) (x : Arrival) (l : Loop)
      → s.loop ≡ l
      → IsSafe s (loops now x)
      → AddsAt s (loops now x)
      → Keeps s a (loop_step now x l s.shared)
  unfolding loop_step
  loop_step-Keeps now x waiting e f ok = arrive-Keeps s a now x e f
  loop_step-Keeps now x (looking t) e f ok = looking-Keeps owner s h a t e
  loop_step-Keeps now x (beginning t) e f ok = begin_task-Keeps owner s h a t e
  loop_step-Keeps now x (enqueueing t) e f ok = enqueueing-Keeps s a t e
  loop_step-Keeps now x (registering fd ip) e f ok = registering-Keeps s a owner h now fd ip x e
  loop_step-Keeps now x (adding fd) e f ok = adding-Keeps s a now fd x e (ok fd e)
  loop_step-Keeps now x (closing_each fds) e f ok = close_next-Keeps owner s h a fds e
  loop_step-Keeps now x (marking_first fd fds) e f ok = marking-Keeps owner s h a fd fds e
  loop_step-Keeps now x (deleting_first fd fds) e f ok = deleting-Keeps owner s h a fd fds e
  loop_step-Keeps now x (shutting_first fd fds) e f ok = shutting-Keeps owner s h a fd fds e

  -- What an idle worker does, with the first task or with none.
  module _ (w : ℕ) (e : s.workers w ≡ idle) where
    was_idle : (j fd : ℕ) → worker_at (s.workers j) ≡ some fd → w ≢ j
    was_idle j fd x n =
        let y : worker_at idle ≡ some fd = ap worker_at (sym e ∙ ap (λ i. s.workers i) n) ∙ x in
        cc y

    taken_held :
        (p : Worker) (ts : List Task) (k : ℕ)
        → (0 < sum (tasks_at k) s.shared.tasks → (0 < sum (tasks_at k) ts) ⊎ (worker_at p ≡ some k))
        → IsHeld s k
        → IsHeld
            (record s { shared = record s.shared { tasks = ts }; workers = set_at w p s.workers })
            k
    taken_held p ts k split (by_kernel armed) = by_kernel armed
    taken_held p ts k split (by_queue some_task) = elim (split some_task) [
      | inl later ↦ by_queue later
      | inr own ↦ by_worker w (rw (set_at_self w p s.workers) own)
    ]
    taken_held p ts k split (by_loop x) = by_loop x
    taken_held p ts k split (by_closing x) = by_closing x
    taken_held p ts k split (by_worker j x) =
        by_worker j (rw (set_at_ne w p s.workers j (was_idle j k x)) x)

    taken :
        (p : Worker) (ts : List Task)
        → WorkerFits p s.shared.table
        → ((k : ℕ)
            → 0 < sum (tasks_at k) s.shared.tasks
            → (0 < sum (tasks_at k) ts) ⊎ (worker_at p ≡ some k))
        → IsAttended
            (record s { shared = record s.shared { tasks = ts }; workers = set_at w p s.workers })
    taken p ts fit split = record {
      is_open = a.is_open;
      registered = a.registered;
      fits =
          split_at w (λ j. WorkerFits (set_at w p s.workers j) s.shared.table)
            (rw (set_at_self w p s.workers) fit)
            (λ j n. rw (set_at_ne w p s.workers j n) (a.fits j));
      removed = a.removed;
      unregistered = a.unregistered;
      held = λ k there. taken_held p ts k (split k) (a.held k there);
    }

    first_or_later :
        (t : Task) (ts : List Task) (k : ℕ)
        → 0 < sum (tasks_at k) (t ∷ ts)
        → (0 < sum (tasks_at k) ts) ⊎ (worker_at (begun t) ≡ some k)
    first_or_later t ts k more = elim (Bool-cases (task_fd t == k)) [
      | inl own ↦ inr (begun_at t ∙ ap some (==→eq (task_fd t) k own))
      | inr other ↦ inl (let rest = rw other at more in omega (arith, rest))
    ]

    take-IsAttended :
        (ts : List Task)
        → s.shared.tasks ≡ ts
        → let r = take_task ts s.shared in
          IsAttended (record s { shared = r.1; workers = set_at w r.0 s.workers })
    take-IsAttended [] q = taken idle s.shared.tasks tt (λ k more. inl more)
    take-IsAttended (t ∷ ts) q =
        taken (begun t) ts (begun_fits t s.shared.table)
          (λ k more. first_or_later t ts k (rw q at more))

  work-IsAttended :
      (o : Outside) (x : Answer) (w : ℕ) (p : Worker)
      → s.workers w ≡ p
      → let r = work o x p s.shared in
        IsAttended (record s { shared = r.1; workers = set_at w r.0 s.workers })
  unfolding work
  work-IsAttended o x w idle e = take-IsAttended w e s.shared.tasks refl
  work-IsAttended o x w (at fd stage) e =
      let here : worker_at (s.workers w) ≡ some fd = rw e refl in
      let there : s.shared.table fd ≡ true → s.shared.interest fd ≢ absent = λ y.
        elim (a.registered fd y) [
          | inl known ↦ known
          | inr new_one ↦
              cc (h.workers_own w fd here, h.loop_owns fd (registers_at s.loop fd new_one))
        ] in
      worker-IsAttended owner s h a w fd _ _ here (work_at-OnlyAt fd o x s.shared stage) (
        work_at-Leaves o x fd s.shared (a.is_open fd) there stage
          (subst (λ p. WorkerFits p s.shared.table) e (a.fits w)))

  move-IsAttended : (o : Outside) (m : Move) → IsSafe s m → AddsAt s m → IsAttended (move o s m)
  unfolding move
  move-IsAttended o (works w x) f ok = work-IsAttended o x w (s.workers w) refl
  move-IsAttended o (loops now x) f ok = loop_step-Keeps now x s.loop refl f ok

pub Reaches-IsAttended :
    (idle_timeout : ℕ) (root : Bytes) (s : System) (r : Reaches (system idle_timeout root) s)
    → ReusesNone r
    → AddsAll r
    → IsAttended s
Reaches-IsAttended idle_timeout root s starts n ok = record {
  is_open = λ fd x. cc x;
  registered = λ fd x. cc x;
  fits = λ w. tt;
  removed = λ fd x. cc x;
  unregistered = λ fd x. cc x;
  held = λ fd x. cc x;
}
Reaches-IsAttended idle_timeout root s (moves {s = t} o m r f) n ok =
    let (owner, h) = Reaches-IsOwned idle_timeout root t r n.1 in
    move-IsAttended owner t h (Reaches-IsAttended idle_timeout root t r n.1 ok.1) o m
      (fair-IsSafe t m f n.0) ok.0

-- In every state that the threads reach, in any order of their steps, if no descriptor that a task or a worker
-- still has is accepted again and every EPOLL_CTL_ADD succeeds: a connection of the table is open, and no
-- connection is forgotten, that is, its descriptor is armed, or a task for it is in the queue, or the loop
-- dispatches, accepts or closes it, or a worker is at it.
pub Reaches-held :
    (idle_timeout : ℕ) (root : Bytes) (s : System) (r : Reaches (system idle_timeout root) s)
    → ReusesNone r
    → AddsAll r
    → (fd : ℕ) → s.shared.table fd ≡ true
    → ((s.shared.objects fd).closed ≡ false) × IsHeld s fd
Reaches-held idle_timeout root s r n ok fd there =
    let a = Reaches-IsAttended idle_timeout root s r n ok in (a.is_open fd there, a.held fd there)
