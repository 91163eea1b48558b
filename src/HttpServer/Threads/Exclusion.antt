-- ===== src/HttpServer/Threads/Exclusion.antt =====
-- The steps of the loop and of the workers, however they fall between each other.
use mini_server.Prelude.{
  ℕ, ◌≡◌, refl, sym, subst, inl, inr, false, some, List, [], ◌∷◌, arith, Bool-cases, if_either,
  if◌then◌else◌, some_eq,
}
use mini_server.Bytes.{Bytes}
use mini_server.Connection.{connection}
use mini_server.Connection.Sending.{remaining}
use mini_server.Epoller.{readable_once, set_at, added, epoll_add}
use mini_server.HttpServer.{Outside, Task}
use mini_server.HttpServer.Phases.{set_at_self, set_at_ne}
use mini_server.HttpServer.Threads.{Worker, idle, at, Answer, forget, take_task, work}
use mini_server.HttpServer.Threads.System.{
  ReusesNone, System, Loop, waiting, looking, beginning, enqueueing, registering, adding,
  closing_each, marking_first, deleting_first, shutting_first, Arrival, Move, works, loops, task_fd,
  worker_at, close_next, loop_step, move, system, Reaches, starts, moves,
}
use mini_server.HttpServer.Threads.Ownership.{
  register-cases, fair-IsSafe, IsSafe, Owner, nobody, kernel, loop_thread, worker, is_armed,
  IsRested, IsWorker, IsLoop, IsOwned,
}
use mini_server.HttpServer.Threads.Owned.{worker-IsOwned, split_at}
use mini_server.HttpServer.Threads.Working.{unarmed-IsRested, work_at-Leaves}
use mini_server.HttpServer.Threads.Local.{object-OnlyAt, only_interest-OnlyAt, work_at-OnlyAt}
use mini_server.HttpServer.Threads.Looping.{take-IsOwned}
use mini_server.HttpServer.Threads.Closing.{
  turn-IsOwned, enqueue-IsOwned, mark-IsOwned, unregister-IsOwned,
}
use mini_server.HttpServer.Threads.Moving.{
  Keeps, turns, waits, leaves, arrive-Keeps, begin_task-Keeps, unarmed, added-IsRested,
}

module _ (owner : ℕ → Owner) (s : System) (h : IsOwned owner s) where
  close_next-Keeps : (fds : List ℕ) → Keeps owner s h (close_next fds s.shared)
  close_next-Keeps [] = waits owner s h
  close_next-Keeps (fd ∷ fds) = elim (Bool-cases (s.shared.table fd)) [
    | inl there ↦ rw there (
      owner,
      turn-IsOwned owner s h (forget fd s.shared) (marking_first fd fds) refl refl refl
          (λ k e. cc e) tt,
    )
    | inr gone ↦ rw gone (turns owner s h (closing_each fds) (λ k e. cc e) tt)
  ]

  registering-Keeps :
      (now fd : ℕ) (ip : Bytes) (a : Arrival)
      → owner fd ≡ loop_thread
      → Keeps owner s h (loop_step now a (registering fd ip) s.shared)
  unfolding loop_step connection remaining
  registering-Keeps now fd ip a mine =
      let c = connection fd ip now in
      leaves owner s h fd loop_thread mine refl (λ w e. cc e) (adding fd) _ loop_thread
        (let set = object-OnlyAt fd c s.shared in
          record {
            other_object = set.other_object;
            other_interest = set.other_interest;
            same_tasks = refl;
          })
        (record {
          stays = λ k e. (some_eq e, refl);
          ok = rw (set_at_self fd c s.shared.objects) (λ e. refl, refl);
          armed = λ x. cc (x, unarmed owner s h fd mine);
          rested = unarmed-IsRested (s.shared.interest fd) _ (unarmed owner s h fd mine);
        })

  adding-Keeps :
      (now fd : ℕ) (a : Arrival)
      → owner fd ≡ loop_thread
      → IsRested readable_once (s.shared.objects fd)
      → Keeps owner s h (loop_step now a (adding fd) s.shared)
  unfolding loop_step epoll_add
  adding-Keeps now fd a mine rested =
      let i = added readable_once (s.shared.interest fd) in
      elim (register-cases a fd s.shared) [
        | inl refused ↦ rw refused (waits owner s h)
        | inr done ↦
            subst (λ t. Keeps owner s h (waiting, t)) (sym done)
              (leaves owner s h fd loop_thread mine refl (λ w e. cc e) waiting _
                (if is_armed i then kernel else nobody) (only_interest-OnlyAt fd i s.shared)
                (record {
                  stays = λ k e. cc e;
                  ok = tt;
                  armed = λ x. rw (rw (set_at_self fd i s.shared.interest) at x) refl;
                  rested = rw (set_at_self fd i s.shared.interest) (
                      added-IsRested (s.shared.interest fd) (s.shared.objects fd) rested
                        (h.armed_ok fd));
                }))
      ]

  loop_step-Keeps :
      (now : ℕ) (a : Arrival) (l : Loop)
      → s.loop ≡ l
      → IsSafe s (loops now a)
      → Keeps owner s h (loop_step now a l s.shared)
  unfolding loop_step
  loop_step-Keeps now a waiting e f = arrive-Keeps owner s h now a f
  loop_step-Keeps now a (looking t) e f =
      if_either (λ l. Keeps owner s h (l, s.shared)) (s.shared.table (task_fd t)) (beginning t)
        waiting
        (turns owner s h (beginning t) (λ k x. h.loop_owns k (rw e x))
          (subst (λ l. IsLoop l s.shared.objects) e h.loop_ok))
        (waits owner s h)
  loop_step-Keeps now a (beginning t) e f =
      begin_task-Keeps owner s h t (h.loop_owns (task_fd t) (rw e refl))
        (subst (λ l. IsLoop l s.shared.objects) e h.loop_ok)
  loop_step-Keeps now a (enqueueing t) e f = (
    _,
    enqueue-IsOwned owner s h t (h.loop_owns (task_fd t) (rw e refl))
        (subst (λ l. IsLoop l s.shared.objects) e h.loop_ok),
  )
  loop_step-Keeps now a (registering fd ip) e f =
      registering-Keeps now fd ip a (h.loop_owns fd (rw e refl))
  loop_step-Keeps now a (adding fd) e f =
      adding-Keeps now fd a (h.loop_owns fd (rw e refl))
        (subst (λ l. IsLoop l s.shared.objects) e h.loop_ok)
  loop_step-Keeps now a (closing_each fds) e f = close_next-Keeps fds
  loop_step-Keeps now a (marking_first fd fds) e f =
      (owner, mark-IsOwned owner s h fd (deleting_first fd fds) refl tt)
  loop_step-Keeps now a (deleting_first fd fds) e f =
      (owner, unregister-IsOwned owner s h fd (shutting_first fd fds) refl tt)
  loop_step-Keeps now a (shutting_first fd fds) e f =
      turns owner s h (closing_each fds) (λ k x. cc x) tt

  work-Keeps :
      (o : Outside) (a : Answer) (w : ℕ) (p : Worker)
      → s.workers w ≡ p
      → let r = work o a p s.shared in
        (after : ℕ → Owner) × IsOwned after
          (record s { shared = r.1; workers = set_at w r.0 s.workers })
  unfolding work
  work-Keeps o a w (at fd stage) e =
      let mine = h.workers_own w fd (rw e refl) in
      let unarmed_now : is_armed (s.shared.interest fd) ≡ false =
        elim (Bool-cases (is_armed (s.shared.interest fd))) [
          | inl armed ↦ cc (mine, h.armed_owns fd armed)
          | inr not_armed ↦ not_armed
        ] in
      let ready = subst (λ p. IsWorker p s.shared.objects) e (h.workers_ok w) in
      let (v, left) = work_at-Leaves w fd o a s.shared unarmed_now stage ready in
      (
        set_at fd v owner,
        worker-IsOwned owner s h w fd _ _ v mine (work_at-OnlyAt fd o a s.shared stage) left,
      )
  work-Keeps o a w idle e = take s.shared.tasks refl
    where
      take :
          (ts : List Task)
          → s.shared.tasks ≡ ts
          → let r = take_task ts s.shared in
            (after : ℕ → Owner) × IsOwned after
              (record s { shared = r.1; workers = set_at w r.0 s.workers })
      take [] q = (
        owner,
        record {
          workers_own =
              split_at w
                (λ j. (k : ℕ) → worker_at (set_at w idle s.workers j) ≡ some k → owner k ≡ worker j)
                (λ k x. cc (rw (set_at_self w idle s.workers) at x))
                (λ j n. rw (set_at_ne w idle s.workers j n) (h.workers_own j));
          workers_ok =
              split_at w (λ j. IsWorker (set_at w idle s.workers j) s.shared.objects)
                (rw (set_at_self w idle s.workers) tt)
                (λ j n. rw (set_at_ne w idle s.workers j n) (h.workers_ok j));
          queue_owns = h.queue_owns;
          queue_ok = h.queue_ok;
          armed_owns = h.armed_owns;
          armed_ok = h.armed_ok;
          loop_owns = h.loop_owns;
          loop_ok = h.loop_ok;
        },
      )
      take (t ∷ ts) q = (_, take-IsOwned owner s h w t ts q)

  pub move-IsOwned :
      (o : Outside) (m : Move) → IsSafe s m → (after : ℕ → Owner) × IsOwned after (move o s m)
  unfolding move
  move-IsOwned o (works w a) f = work-Keeps o a w (s.workers w) refl
  move-IsOwned o (loops now a) f = loop_step-Keeps now a s.loop refl f

pub Reaches-IsOwned :
    (idle_timeout : ℕ) (root : Bytes) (s : System) (r : Reaches (system idle_timeout root) s)
    → ReusesNone r
    → (owner : ℕ → Owner) × IsOwned owner s
unfolding connection remaining
Reaches-IsOwned idle_timeout root s starts n = (
  λ fd. nobody,
  record {
    workers_own = λ w fd e. cc e;
    workers_ok = λ w. tt;
    queue_owns = λ fd. omega arith;
    queue_ok = tt;
    armed_owns = λ fd e. cc e;
    armed_ok = λ fd. tt;
    loop_owns = λ fd e. cc e;
    loop_ok = tt;
  },
)
Reaches-IsOwned idle_timeout root s (moves {s = t} o m r f) n =
    let (owner, h) = Reaches-IsOwned idle_timeout root t r n.1 in
    move-IsOwned owner t h o m (fair-IsSafe t m f n.0)
