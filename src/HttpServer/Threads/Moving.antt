-- ===== src/HttpServer/Threads/Moving.antt =====
-- The steps of the loop, and the owners of the descriptors behind them.
use mini_server.Prelude.{
  ℕ, ◌≡◌, refl, sym, ap, ◌∙◌, subst, ◌≢◌, inl, inr, true, false, not, ◌&&◌, none, some, [], ◌∷◌,
  arith, Bool-cases, if_either, some_eq, sum,
}
use mini_server.Connection.{Connection, set_processing}
use mini_server.Connection.Sending.{remaining}
use mini_server.Epoller.{Interest, absent, disarmed, readable_once, writable_once, set_at, added}
use mini_server.HttpServer.{Task, reads, writes, begin_processing}
use mini_server.HttpServer.Phases.{set_at_self}
use mini_server.HttpServer.Threads.{Shared, set_object}
use mini_server.HttpServer.Threads.System.{
  System, Loop, waiting, looking, enqueueing, registering, closing_each, Arrival, accepts, hangs_up,
  is_readable, is_writable, sweeps, fails, task_fd, tasks_at, worker_at, disarm, hung_up, readable,
  writable, arrive, begin_task, loops,
}
use mini_server.HttpServer.Threads.Ownership.{
  IsSafe, Owner, nobody, kernel, loop_thread, worker, queued, is_armed, IsRested, IsTask, armed_for,
  loop_at, IsLoop, IsOwned, OnlyAt,
}
use mini_server.HttpServer.Threads.Working.{unarmed-IsRested}
use mini_server.HttpServer.Threads.Local.{OnlyAt-refl, object-OnlyAt, only_interest-OnlyAt}
use mini_server.HttpServer.Threads.Looping.{LoopLeaves, loop-IsOwned}
use mini_server.HttpServer.Threads.Closing.{turn-IsOwned}

pub added-IsRested :
    (i : Interest) (c : Connection)
    → IsRested readable_once c
    → IsRested i c
    → IsRested (added readable_once i) c
added-IsRested absent c h k = h
added-IsRested disarmed c h k = k
added-IsRested readable_once c h k = k
added-IsRested writable_once c h k = k

module _ (owner : ℕ → Owner) (s : System) (h : IsOwned owner s) where
  -- Some owner for every descriptor, with what the loop has done.
  abbrev pub Keeps : Loop × Shared → Type 0
  Keeps (l, t) = (after : ℕ → Owner) × IsOwned after (record s { shared = t; loop = l })

  pub turns :
      (l : Loop)
      → ((k : ℕ) → loop_at l ≡ some k → owner k ≡ loop_thread)
      → IsLoop l s.shared.objects
      → Keeps (l, s.shared)
  turns l owns ok = (owner, turn-IsOwned owner s h s.shared l refl refl refl owns ok)

  pub waits : Keeps (waiting, s.shared)
  waits = turns waiting (λ k e. cc e) tt

  -- The kernel's or the loop's descriptor has no worker and no task.
  module _ (fd : ℕ) (v : Owner) (mine : owner fd ≡ v) (not_queue : queued v ≡ 0)
      (not_worker : (w : ℕ) → v ≢ worker w) where
    vacant_worker : (w : ℕ) → worker_at (s.workers w) ≢ some fd
    vacant_worker w e = not_worker w (sym mine ∙ h.workers_own w fd e)

    vacant_tasks : sum (tasks_at fd) s.shared.tasks ≡ 0
    vacant_tasks = omega (arith, h.queue_owns fd, ap queued mine)

    pub leaves :
        (l : Loop) (t : Shared) (u : Owner)
        → OnlyAt fd s.shared t
        → LoopLeaves fd l t u
        → Keeps (l, t)
    leaves l t u only left =
        (set_at fd u owner, loop-IsOwned owner s h fd l t u vacant_worker vacant_tasks only left)

  -- A reported descriptor was the kernel's.
  reported :
      (fd : ℕ) (l : Loop) (v : Owner)
      → is_armed (s.shared.interest fd) ≡ true
      → ((k : ℕ) → loop_at l ≡ some k → (fd ≡ k) × (v ≡ loop_thread))
      → IsLoop l s.shared.objects
      → Keeps (l, disarm fd s.shared)
  reported fd l v armed stays ok =
      leaves fd kernel (h.armed_owns fd armed) refl (λ w e. cc e) l (disarm fd s.shared) v
        (only_interest-OnlyAt fd disarmed s.shared)
        (record {
          stays = stays;
          ok = ok;
          armed = λ a. cc (rw (set_at_self fd disarmed s.shared.interest) at a);
          rested = rw (set_at_self fd disarmed s.shared.interest) tt;
        })

  hung_up-Keeps : (i : Interest) (fd : ℕ) → s.shared.interest fd ≡ i → Keeps (hung_up i fd s.shared)
  hung_up-Keeps absent fd e = waits
  hung_up-Keeps disarmed fd e = waits
  hung_up-Keeps readable_once fd e =
      reported fd (closing_each (fd ∷ [])) nobody (rw e refl) (λ k x. cc x) tt
  hung_up-Keeps writable_once fd e =
      reported fd (closing_each (fd ∷ [])) nobody (rw e refl) (λ k x. cc x) tt

  readable-Keeps :
      (i : Interest) (fd : ℕ) → s.shared.interest fd ≡ i → Keeps (readable i fd s.shared)
  readable-Keeps absent fd e = waits
  readable-Keeps disarmed fd e = waits
  readable-Keeps writable_once fd e = waits
  readable-Keeps readable_once fd e =
      reported fd (looking (reads fd)) loop_thread (rw e refl) (λ k x. (some_eq x, refl))
        (subst (λ i. IsRested i (s.shared.objects fd)) e (h.armed_ok fd))

  writable-Keeps :
      (i : Interest) (fd : ℕ) → s.shared.interest fd ≡ i → Keeps (writable i fd s.shared)
  writable-Keeps absent fd e = waits
  writable-Keeps disarmed fd e = waits
  writable-Keeps readable_once fd e = waits
  writable-Keeps writable_once fd e =
      reported fd (looking (writes fd)) loop_thread (rw e refl) (λ k x. (some_eq x, refl))
        (subst (λ i. IsRested i (s.shared.objects fd)) e (h.armed_ok fd))

  pub arrive-Keeps :
      (now : ℕ) (a : Arrival) → IsSafe s (loops now a) → Keeps (arrive now a s.shared)
  arrive-Keeps now (accepts fd ip) (free, no_task, no_worker) = (
    set_at fd loop_thread owner,
    loop-IsOwned owner s h fd (registering fd ip) s.shared loop_thread no_worker no_task
        (OnlyAt-refl fd s.shared)
        (record {
          stays = λ k e. (some_eq e, refl);
          ok = tt;
          armed = λ a. cc (rw free at a);
          rested = rw free tt;
        }),
  )
  arrive-Keeps now (hangs_up fd) f = hung_up-Keeps (s.shared.interest fd) fd refl
  arrive-Keeps now (is_readable fd) f = readable-Keeps (s.shared.interest fd) fd refl
  arrive-Keeps now (is_writable fd) f = writable-Keeps (s.shared.interest fd) fd refl
  arrive-Keeps now fails f = waits
  arrive-Keeps now sweeps f = (owner, turn-IsOwned owner s h _ _ refl refl refl (λ k e. cc e) tt)

  begun-IsTask :
      (t : Task) (c : Connection)
      → IsRested (armed_for t) c
      → IsTask (set_at (task_fd t) (set_processing true c) s.shared.objects) t
  unfolding remaining
  begun-IsTask (reads fd) c r = rw (set_at_self fd (set_processing true c) s.shared.objects) r.1
  begun-IsTask (writes fd) c r = tt

  pub unarmed : (fd : ℕ) → owner fd ≡ loop_thread → is_armed (s.shared.interest fd) ≡ false
  unarmed fd mine = elim (Bool-cases (is_armed (s.shared.interest fd))) [
    | inl armed ↦ cc (mine, h.armed_owns fd armed)
    | inr not_armed ↦ not_armed
  ]

  pub begin_task-Keeps :
      (t : Task)
      → owner (task_fd t) ≡ loop_thread
      → IsRested (armed_for t) (s.shared.objects (task_fd t))
      → Keeps (begin_task (begin_processing (s.shared.objects (task_fd t))) t s.shared)
  unfolding begin_processing
  begin_task-Keeps t mine rested =
      let fd = task_fd t in
      let c = s.shared.objects fd in
      let d = set_processing true c in
      if_either (λ x. Keeps (begin_task x t s.shared)) (not c.closed && not c.processing) (some d)
        none
        (leaves fd loop_thread mine refl (λ w e. cc e) (enqueueing t) (set_object fd d s.shared)
          loop_thread (object-OnlyAt fd d s.shared)
          (record {
            stays = λ k e. (some_eq e, refl);
            ok = begun-IsTask t c rested;
            armed = λ a. cc (a, unarmed fd mine);
            rested = unarmed-IsRested (s.shared.interest fd) _ (unarmed fd mine);
          }))
        waits
