-- ===== src/HttpServer/Threads/Owned.antt =====
-- A worker's step at its descriptor, and the owners of the descriptors behind it.
use mini_server.Prelude.{
  ℕ, ◌≤◌, ◌≡◌, sym, ap, ◌∙◌, subst, ◌≢◌, inl, inr, true, some, arith, ==-refl, ==→eq, Bool-cases,
  sum, ◌==◌,
}
use mini_server.Epoller.{set_at}
use mini_server.HttpServer.Phases.{set_at_self, set_at_ne}
use mini_server.HttpServer.Threads.{Worker, Shared}
use mini_server.HttpServer.Threads.System.{System, tasks_at, worker_at}
use mini_server.HttpServer.Threads.Ownership.{
  Owner, kernel, worker, queued, is_armed, IsRested, IsWorker, loop_at, IsOwned, OnlyAt,
  IsWorker-other, tasks-other, IsLoop-other,
}

-- Two cases for a descriptor: it is this one, or another.
pub split_at {κ} : (fd : ℕ) (P : ℕ → Type κ) → P fd → ((j : ℕ) → fd ≢ j → P j) → (j : ℕ) → P j
split_at fd P here there j = elim (Bool-cases (fd == j)) [
  | inl same ↦ subst P (==→eq fd j same) here
  | inr other ↦ there j (λ e. cc (other, ==-refl fd, ap (◌==◌ fd) e))
]

-- How a worker `w` at `fd` leaves the shared state `t`, and the owner `v` that the descriptor then has.
pub record LeavesOwned (w fd : ℕ) (p : Worker) (t : Shared) (v : Owner) : Type 0 where
  pub stays : (k : ℕ) → worker_at p ≡ some k → (fd ≡ k) × (v ≡ worker w)
  pub ok : IsWorker p t.objects
  pub armed : is_armed (t.interest fd) ≡ true → v ≡ kernel
  pub rested : IsRested (t.interest fd) (t.objects fd)

module _ (owner : ℕ → Owner) (s : System) (h : IsOwned owner s) (w fd : ℕ) (p : Worker) (t : Shared)
    (v : Owner) (here : owner fd ≡ worker w) (only : OnlyAt fd s.shared t)
    (left : LeavesOwned w fd p t v) where
  abbrev owner_after : ℕ → Owner
  owner_after = set_at fd v owner

  abbrev system_after : System
  system_after = record s { shared = t; workers = set_at w p s.workers }

  other_worker : (j : ℕ) → w ≢ j → worker_at (s.workers j) ≢ some fd
  other_worker j n e = n (let o = h.workers_own j fd e in cc (here, o))

  no_task : sum (tasks_at fd) s.shared.tasks ≡ 0
  no_task = let few = h.queue_owns fd in let e = ap queued here in omega arith

  workers_own_after :
      (j k : ℕ) → worker_at (set_at w p s.workers j) ≡ some k → owner_after k ≡ worker j
  workers_own_after j k e = elim (Bool-cases (w == j)) [
    | inl own ↦
        let (same, keeps) = left.stays k (rw own at e) in
        rw (← same, set_at_self fd v owner, ← ==→eq w j own) keeps
    | inr other ↦
        let off : worker_at (s.workers j) ≡ some k = rw other at e in
        let n : fd ≢ k = λ same.
          other_worker j (λ x. cc (other, ==-refl w, ap (◌==◌ w) x)) (off ∙ ap some (sym same)) in
        rw (set_at_ne fd v owner k n) (h.workers_own j k off)
  ]

  pub worker-IsOwned : IsOwned owner_after system_after
  worker-IsOwned = record {
    workers_own = workers_own_after;
    workers_ok =
        split_at w (λ j. IsWorker (set_at w p s.workers j) t.objects)
          (rw (set_at_self w p s.workers) left.ok)
          (λ j n. rw (set_at_ne w p s.workers j n) (
            IsWorker-other (s.workers j) s.shared.objects t.objects fd only.other_object
              (other_worker j n) (h.workers_ok j)));
    queue_owns =
        split_at fd (λ k. sum (tasks_at k) t.tasks ≤ queued (owner_after k))
          (rw only.same_tasks (omega (arith, no_task)))
          (λ k n. rw (only.same_tasks, set_at_ne fd v owner k n) (h.queue_owns k));
    queue_ok = rw only.same_tasks (
        tasks-other s.shared.objects t.objects fd s.shared.tasks only.other_object no_task
          h.queue_ok);
    armed_owns =
        split_at fd (λ k. is_armed (t.interest k) ≡ true → owner_after k ≡ kernel)
          (λ a. rw (set_at_self fd v owner) (left.armed a))
          (λ k n. rw (set_at_ne fd v owner k n, only.other_interest k n) (h.armed_owns k));
    armed_ok =
        split_at fd (λ k. IsRested (t.interest k) (t.objects k)) left.rested
          (λ k n. rw (only.other_interest k n, only.other_object k n) (h.armed_ok k));
    loop_owns = λ k e.
        rw (set_at_ne fd v owner k (λ x. loop_elsewhere (e ∙ ap some (sym x)))) (h.loop_owns k e);
    loop_ok =
        IsLoop-other s.loop s.shared.objects t.objects fd only.other_object loop_elsewhere
          h.loop_ok;
  }
    where
      loop_elsewhere : loop_at s.loop ≢ some fd
      loop_elsewhere e = cc (here, h.loop_owns fd e)
