-- ===== src/HttpServer/Threads/Attended/Turns.antt =====
-- A step of the loop, and the connections of the table behind it.
use mini_server.Prelude.{
  ℕ, ◌<◌, ◌≡◌, refl, sym, ap, ◌∙◌, ◌≢◌, ◌⊎◌, inl, inr, Bool, true, false, none, some, ==-refl,
  ==→eq, Bool-cases, count, some_eq, ◌==◌,
}
use mini_server.Epoller.{absent}
use mini_server.HttpServer.Threads.{
  Stage, getting_to_read, reading, renewing, getting_to_process, extracting, answering, answered,
  getting_to_write, testing, sending, consuming, blocked, clearing, settled, finishing, arming,
  closing, marking, deleting, shutting, Worker, idle, at, Shared,
}
use mini_server.HttpServer.Threads.System.{Loop, System, worker_at}
use mini_server.HttpServer.Threads.Ownership.{loop_at, OnlyAt}
use mini_server.HttpServer.Threads.Owned.{split_at}
use mini_server.HttpServer.Threads.Attended.{
  to_close, removed_by, registers, registers_at, Fits, WorkerFits, IsHeld, by_kernel, by_queue,
  by_loop, by_closing, by_worker, IsAttended, WorkerFits-other,
}

-- The loop moves to `l` and changes at most the descriptor `fd`, where it stood if it stood at one.
pub record TurnsAttended (fd : ℕ) (s : System) (l : Loop) (t : Shared) : Type 0 where
  pub still_open : t.table fd ≡ true → (t.objects fd).closed ≡ false
  pub still_there : t.table fd ≡ true → (t.interest fd ≢ absent) ⊎ (registers l ≡ some fd)
  pub has : t.table fd ≡ true → IsHeld (record s { shared = t; loop = l }) fd
  pub fit : (w : ℕ) → worker_at (s.workers w) ≡ some fd → WorkerFits (s.workers w) t.table
  pub other_table : (j : ℕ) → fd ≢ j → t.table j ≡ s.shared.table j
  pub was_at : (k : ℕ) → loop_at s.loop ≡ some k → fd ≡ k
  pub rest : (k : ℕ) → fd ≢ k → 0 < count k (to_close s.loop) → 0 < count k (to_close l)
  pub off : (k : ℕ) → removed_by l ≡ some k → t.table k ≡ false
  pub new : (k : ℕ) → registers l ≡ some k → t.interest k ≡ absent

worker_elsewhere : (p : Worker) (fd : ℕ) → (worker_at p ≡ some fd) ⊎ (worker_at p ≢ some fd)
worker_elsewhere idle fd = inr (λ e. cc e)
worker_elsewhere (at k stage) fd = elim (Bool-cases (k == fd)) [
  | inl same ↦ inl (ap some (==→eq k fd same))
  | inr other ↦ inr (λ e. cc (other, ==-refl fd, ap (λ x. x == fd) (some_eq e)))
]

module _ (s : System) (a : IsAttended s) (fd : ℕ) (l : Loop) (t : Shared)
    (only : OnlyAt fd s.shared t) (left : TurnsAttended fd s l t) where
  abbrev turned : System
  turned = record s { shared = t; loop = l }

  other_held : (k : ℕ) → fd ≢ k → IsHeld s k → IsHeld turned k
  other_held k n (by_kernel armed) = by_kernel (rw (only.other_interest k n) armed)
  other_held k n (by_queue some_task) = by_queue (rw only.same_tasks some_task)
  other_held k n (by_loop e) = absurd (n (left.was_at k e))
  other_held k n (by_closing e) = by_closing (left.rest k n e)
  other_held k n (by_worker w e) = by_worker w e

  other_there :
      (k : ℕ) → fd ≢ k → t.table k ≡ true → (t.interest k ≢ absent) ⊎ (registers l ≡ some k)
  other_there k n e = elim (a.registered k (sym (left.other_table k n) ∙ e)) [
    | inl there ↦ inl (λ x. there (sym (only.other_interest k n) ∙ x))
    | inr registering ↦ absurd (n (left.was_at k (registers_at s.loop k registering)))
  ]

  all_fit : (w : ℕ) → WorkerFits (s.workers w) t.table
  all_fit w = elim (worker_elsewhere (s.workers w) fd) [
    | inl here ↦ left.fit w here
    | inr elsewhere ↦
        WorkerFits-other (s.workers w) s.shared.table t.table fd left.other_table elsewhere
          (a.fits w)
  ]

  pub turn-IsAttended : IsAttended turned
  turn-IsAttended = record {
    is_open =
        split_at fd (λ k. t.table k ≡ true → (t.objects k).closed ≡ false) left.still_open
          (λ k n. rw (left.other_table k n, only.other_object k n) (a.is_open k));
    registered =
        split_at fd (λ k. t.table k ≡ true → (t.interest k ≢ absent) ⊎ (registers l ≡ some k))
          left.still_there other_there;
    fits = all_fit;
    removed = left.off;
    unregistered = left.new;
    held =
        split_at fd (λ k. t.table k ≡ true → IsHeld turned k) left.has
          (λ k n e. other_held k n (a.held k (sym (left.other_table k n) ∙ e)));
  }

-- A descriptor that is out of the table needs no one.
pub out-TurnsAttended :
    (fd : ℕ) (s : System) (l : Loop) (t : Shared)
    → t.table fd ≡ false
    → ((w : ℕ) → worker_at (s.workers w) ≡ some fd → WorkerFits (s.workers w) t.table)
    → ((j : ℕ) → fd ≢ j → t.table j ≡ s.shared.table j)
    → ((k : ℕ) → loop_at s.loop ≡ some k → fd ≡ k)
    → ((k : ℕ) → fd ≢ k → 0 < count k (to_close s.loop) → 0 < count k (to_close l))
    → ((k : ℕ) → removed_by l ≡ some k → t.table k ≡ false)
    → registers l ≡ none
    → TurnsAttended fd s l t
out-TurnsAttended fd s l t out fit other_table was_at rest off none_new = record {
  still_open = λ e. cc (e, out);
  still_there = λ e. cc (e, out);
  has = λ e. cc (e, out);
  fit = fit;
  other_table = other_table;
  was_at = was_at;
  rest = rest;
  off = off;
  new = λ k e. cc (none_new, e);
}

-- A worker fits a descriptor that is taken out of the table.
Fits-out : (stage : Stage) (b : Bool) → Fits stage b → Fits stage false
Fits-out (arming wanted) b h = h
Fits-out marking b h = refl
Fits-out deleting b h = refl
Fits-out shutting b h = refl
Fits-out getting_to_read b h = tt
Fits-out reading b h = tt
Fits-out renewing b h = tt
Fits-out getting_to_process b h = tt
Fits-out extracting b h = tt
Fits-out (answering raw) b h = tt
Fits-out answered b h = tt
Fits-out getting_to_write b h = tt
Fits-out testing b h = tt
Fits-out sending b h = tt
Fits-out (consuming n) b h = tt
Fits-out blocked b h = tt
Fits-out clearing b h = tt
Fits-out (settled closes pending) b h = tt
Fits-out finishing b h = tt
Fits-out closing b h = tt

pub WorkerFits-out :
    (p : Worker) (f g : ℕ → Bool) (fd : ℕ)
    → worker_at p ≡ some fd
    → g fd ≡ false
    → WorkerFits p f
    → WorkerFits p g
WorkerFits-out idle f g fd e out h = tt
WorkerFits-out (at k stage) f g fd e out h = rw (some_eq e, out) (Fits-out stage (f k) h)
