-- ===== src/HttpServer/Threads/Attended.antt =====
-- Who attends to a connection of the table: the kernel, the queue, the loop or a worker.
pub mod Leaving
pub mod Work
pub mod Turns
pub mod Arriving
pub mod Dispatching
pub mod Registering
pub mod Closing
pub mod Safety
use mini_server.Prelude.{
  ℕ, ◌<◌, ◌≡◌, refl, sym, ap, ◌∙◌, ◌≢◌, ◌⊎◌, inl, inr, Bool, true, false, Option, none, some, List,
  [], count, some_eq, sum,
}
use mini_server.Epoller.{absent, set_at}
use mini_server.HttpServer.Phases.{set_at_self, set_at_ne}
use mini_server.HttpServer.Threads.{
  Stage, arming, marking, deleting, shutting, Worker, idle, at, Shared,
}
use mini_server.HttpServer.Threads.System.{
  Loop, waiting, looking, beginning, enqueueing, registering, adding, closing_each, marking_first,
  deleting_first, shutting_first, System, tasks_at, worker_at,
}
use mini_server.HttpServer.Threads.Ownership.{Owner, is_armed, loop_at, IsOwned, OnlyAt}
use mini_server.HttpServer.Threads.Owned.{split_at}

-- The descriptors that the loop still has to close, and the one that it has taken out of the table.
abbrev pub to_close : Loop → List ℕ
to_close (closing_each fds) = fds
to_close (marking_first fd fds) = fds
to_close (deleting_first fd fds) = fds
to_close (shutting_first fd fds) = fds
to_close _ = []

abbrev pub removed_by : Loop → Option ℕ
removed_by (marking_first fd fds) = some fd
removed_by (deleting_first fd fds) = some fd
removed_by (shutting_first fd fds) = some fd
removed_by _ = none

-- The descriptor that the loop is about to register.
abbrev pub registers : Loop → Option ℕ
registers (registering fd ip) = some fd
registers (adding fd) = some fd
registers _ = none

-- A worker that closes has taken the descriptor out of the table; one that arms arms it for something.
abbrev pub Fits : Stage → Bool → Type 0
Fits (arming wanted) there = is_armed wanted ≡ true
Fits marking there = there ≡ false
Fits deleting there = there ≡ false
Fits shutting there = there ≡ false
Fits _ there = Unit

abbrev pub WorkerFits : Worker → (ℕ → Bool) → Type 0
WorkerFits idle table = Unit
WorkerFits (at fd stage) table = Fits stage (table fd)

-- Armed, or with a task in the queue, or with the loop, which dispatches, accepts or closes it, or with a
-- worker.
pub data IsHeld (s : System) (fd : ℕ) : Type 0 where
  by_kernel : is_armed (s.shared.interest fd) ≡ true → IsHeld s fd
  by_queue : 0 < sum (tasks_at fd) s.shared.tasks → IsHeld s fd
  by_loop : loop_at s.loop ≡ some fd → IsHeld s fd
  by_closing : 0 < count fd (to_close s.loop) → IsHeld s fd
  by_worker : (w : ℕ) → worker_at (s.workers w) ≡ some fd → IsHeld s fd

pub record IsAttended (s : System) : Type 0 where
  pub is_open : (fd : ℕ) → s.shared.table fd ≡ true → (s.shared.objects fd).closed ≡ false
  pub registered :
      (fd : ℕ)
      → s.shared.table fd ≡ true
      → (s.shared.interest fd ≢ absent) ⊎ (registers s.loop ≡ some fd)
  pub fits : (w : ℕ) → WorkerFits (s.workers w) s.shared.table
  pub removed : (fd : ℕ) → removed_by s.loop ≡ some fd → s.shared.table fd ≡ false
  pub unregistered : (fd : ℕ) → registers s.loop ≡ some fd → s.shared.interest fd ≡ absent
  pub held : (fd : ℕ) → s.shared.table fd ≡ true → IsHeld s fd

-- How a worker at `fd` leaves the shared state `t`.
pub record LeavesAttended (fd : ℕ) (p : Worker) (s t : Shared) : Type 0 where
  pub still_open : t.table fd ≡ true → (t.objects fd).closed ≡ false
  pub still_there : t.table fd ≡ true → t.interest fd ≢ absent
  pub has : t.table fd ≡ true → (worker_at p ≡ some fd) ⊎ (is_armed (t.interest fd) ≡ true)
  pub fit : WorkerFits p t.table
  pub was_there : t.table fd ≡ true → s.table fd ≡ true
  pub other_table : (j : ℕ) → fd ≢ j → t.table j ≡ s.table j

pub WorkerFits-other :
    (p : Worker) (f g : ℕ → Bool) (fd : ℕ)
    → ((j : ℕ) → fd ≢ j → g j ≡ f j)
    → worker_at p ≢ some fd
    → WorkerFits p f
    → WorkerFits p g
WorkerFits-other idle f g fd same n h = tt
WorkerFits-other (at k stage) f g fd same n h = rw (same k (λ e. n (ap some (sym e)))) h

removed_less : (b c : Bool) → (b ≡ true → c ≡ true) → c ≡ false → b ≡ false
removed_less true c h k = cc (h refl, k)
removed_less false c h k = refl

pub registers_at : (l : Loop) (k : ℕ) → registers l ≡ some k → loop_at l ≡ some k
registers_at (registering fd ip) k e = e
registers_at (adding fd) k e = e
registers_at waiting k e = cc e
registers_at (looking t) k e = cc e
registers_at (beginning t) k e = cc e
registers_at (enqueueing t) k e = cc e
registers_at (closing_each fds) k e = cc e
registers_at (marking_first fd fds) k e = cc e
registers_at (deleting_first fd fds) k e = cc e
registers_at (shutting_first fd fds) k e = cc e

module _ (owner : ℕ → Owner) (s : System) (h : IsOwned owner s) (a : IsAttended s) (w fd : ℕ)
    (p : Worker) (t : Shared) (here : worker_at (s.workers w) ≡ some fd)
    (only : OnlyAt fd s.shared t) (left : LeavesAttended fd p s.shared t) where
  abbrev after : System
  after = record s { shared = t; workers = set_at w p s.workers }

  other_worker : (j : ℕ) → w ≢ j → worker_at (s.workers j) ≢ some fd
  other_worker j n e = n (cc (h.workers_own w fd here, h.workers_own j fd e))

  own_held : ((worker_at p ≡ some fd) ⊎ (is_armed (t.interest fd) ≡ true)) → IsHeld after fd
  own_held (inl stays) = by_worker w (rw (set_at_self w p s.workers) stays)
  own_held (inr armed) = by_kernel armed

  other_held : (k : ℕ) → fd ≢ k → IsHeld s k → IsHeld after k
  other_held k n (by_kernel armed) = by_kernel (rw (only.other_interest k n) armed)
  other_held k n (by_queue some_task) = by_queue (rw only.same_tasks some_task)
  other_held k n (by_loop e) = by_loop e
  other_held k n (by_closing e) = by_closing e
  other_held k n (by_worker j e) = by_worker j (
      rw
        (set_at_ne w p s.workers j
          (λ x. n (some_eq (sym here ∙ ap (λ i. worker_at (s.workers i)) x ∙ e))))
        e)

  pub worker-IsAttended : IsAttended after
  worker-IsAttended = record {
    is_open =
        split_at fd (λ k. t.table k ≡ true → (t.objects k).closed ≡ false) left.still_open
          (λ k n. rw (left.other_table k n, only.other_object k n) (a.is_open k));
    registered =
        split_at fd (λ k. t.table k ≡ true → (t.interest k ≢ absent) ⊎ (registers s.loop ≡ some k))
          (λ e. inl (left.still_there e))
          (λ k n. rw (left.other_table k n, only.other_interest k n) (a.registered k));
    fits =
        split_at w (λ j. WorkerFits (set_at w p s.workers j) t.table)
          (rw (set_at_self w p s.workers) left.fit)
          (λ j n. rw (set_at_ne w p s.workers j n) (
            WorkerFits-other (s.workers j) s.shared.table t.table fd left.other_table
              (other_worker j n) (a.fits j)));
    removed =
        split_at fd (λ k. removed_by s.loop ≡ some k → t.table k ≡ false)
          (λ e. removed_less (t.table fd) (s.shared.table fd) left.was_there (a.removed fd e))
          (λ k n e. left.other_table k n ∙ a.removed k e);
    unregistered = λ k e.
        let n : fd ≢ k =
          λ x. cc (h.workers_own w fd here, h.loop_owns k (registers_at s.loop k e), ap owner x) in
        only.other_interest k n ∙ a.unregistered k e;
    held =
        split_at fd (λ k. t.table k ≡ true → IsHeld after k) (λ e. own_held (left.has e))
          (λ k n e. other_held k n (a.held k (sym (left.other_table k n) ∙ e)));
  }
