-- ===== src/HttpServer/Threads/Removing/Apart.antt =====
-- `closeConnection` of http_server.cpp, called by the loop and by a worker.
use mini_server.Prelude.{
  ℕ, ◌≡◌, ◌≢◌, ◌⊎◌, inl, inr, Bool, true, false, Option, none, some, List, [], ◌∷◌, Bool-cases,
  if_either, some_eq,
}
use mini_server.Bytes.{Bytes}
use mini_server.Connection.{Connection}
use mini_server.Epoller.{Interest, absent, disarmed, readable_once, writable_once, set_at}
use mini_server.HttpServer.{Outside, Task, begin_processing}
use mini_server.HttpServer.Phases.{set_at_self, set_at_ne}
use mini_server.HttpServer.Threads.{Shared, work}
use mini_server.HttpServer.Threads.System.{
  removing_at, System, Loop, waiting, looking, beginning, enqueueing, registering, adding,
  closing_each, marking_first, deleting_first, shutting_first, Arrival, accepts, hangs_up,
  is_readable, is_writable, sweeps, fails, ReusesNone, AddsAll, Move, works, loops, task_fd,
  hung_up, readable, writable, arrive, begin_task, close_next, loop_step, move, system, Reaches,
  starts, moves,
}
use mini_server.HttpServer.Threads.Removing.{removing-worker_at, removing-out, work-Comes}
use mini_server.HttpServer.Threads.Owned.{split_at}
use mini_server.HttpServer.Threads.Safety.{Reaches-exclusive}
use mini_server.HttpServer.Threads.Attended.{removed_by, IsAttended}
use mini_server.HttpServer.Threads.Attended.Safety.{Reaches-IsAttended}

-- The loop comes to take a descriptor out only from the table.
abbrev Turns : Loop → Loop → (ℕ → Bool) → Type 0
Turns l m table = (k : ℕ) → removed_by m ≡ some k → (removed_by l ≡ some k) ⊎ (table k ≡ true)

module _ (l : Loop) (s : Shared) where
  hung_up-Turns : (i : Interest) (fd : ℕ) → Turns l (hung_up i fd s).0 s.table
  hung_up-Turns absent fd k e = cc e
  hung_up-Turns disarmed fd k e = cc e
  hung_up-Turns readable_once fd k e = cc e
  hung_up-Turns writable_once fd k e = cc e

  readable-Turns : (i : Interest) (fd : ℕ) → Turns l (readable i fd s).0 s.table
  readable-Turns absent fd k e = cc e
  readable-Turns disarmed fd k e = cc e
  readable-Turns readable_once fd k e = cc e
  readable-Turns writable_once fd k e = cc e

  writable-Turns : (i : Interest) (fd : ℕ) → Turns l (writable i fd s).0 s.table
  writable-Turns absent fd k e = cc e
  writable-Turns disarmed fd k e = cc e
  writable-Turns readable_once fd k e = cc e
  writable-Turns writable_once fd k e = cc e

  arrive-Turns : (now : ℕ) (x : Arrival) → Turns l (arrive now x s).0 s.table
  arrive-Turns now (accepts fd ip) = λ k e. cc e
  arrive-Turns now (hangs_up fd) = hung_up-Turns (s.interest fd) fd
  arrive-Turns now (is_readable fd) = readable-Turns (s.interest fd) fd
  arrive-Turns now (is_writable fd) = writable-Turns (s.interest fd) fd
  arrive-Turns now sweeps = λ k e. cc e
  arrive-Turns now fails = λ k e. cc e

  begin_task-Turns : (c : Option Connection) (t : Task) → Turns l (begin_task c t s).0 s.table
  begin_task-Turns none t k e = cc e
  begin_task-Turns (some c) t k e = cc e

  close_next-Turns : (fds : List ℕ) → Turns l (close_next fds s).0 s.table
  close_next-Turns [] = λ k e. cc e
  close_next-Turns (fd ∷ fds) = λ k. elim (Bool-cases (s.table fd)) [
    | inl there ↦ rw there (λ e. inr (rw (← some_eq e) there))
    | inr out ↦ rw out (λ e. cc e)
  ]

loop_step-Turns :
    (now : ℕ) (x : Arrival) (l : Loop) (s : Shared) → Turns l (loop_step now x l s).0 s.table
unfolding loop_step
loop_step-Turns now x waiting s = arrive-Turns waiting s now x
loop_step-Turns now x (looking t) s =
    if_either (λ m. Turns (looking t) m s.table) (s.table (task_fd t)) (beginning t) waiting
      (λ k e. cc e) (λ k e. cc e)
loop_step-Turns now x (beginning t) s =
    begin_task-Turns (beginning t) s (begin_processing (s.objects (task_fd t))) t
loop_step-Turns now x (enqueueing t) s = λ k e. cc e
loop_step-Turns now x (registering fd ip) s = λ k e. cc e
loop_step-Turns now x (adding fd) s = λ k e. cc e
loop_step-Turns now x (closing_each fds) s = close_next-Turns (closing_each fds) s fds
loop_step-Turns now x (marking_first fd fds) s = λ k e. inl e
loop_step-Turns now x (deleting_first fd fds) s = λ k e. inl e
loop_step-Turns now x (shutting_first fd fds) s = λ k e. cc e

-- A worker and the loop that close are at different descriptors.
abbrev IsApart : System → Type 0
IsApart s = (w k : ℕ) → removing_at (s.workers w) ≡ some k → removed_by s.loop ≢ some k

move-IsApart :
    (o : Outside) (m : Move) (s : System) → IsAttended s → IsApart s → IsApart (move o s m)
unfolding move
move-IsApart o (works w x) s a h =
    let p = (work o x (s.workers w) s.shared).0 in
    split_at w
      (λ j. (k : ℕ) → removing_at (set_at w p s.workers j) ≡ some k → removed_by s.loop ≢ some k)
      (rw (set_at_self w p s.workers) (λ k e off. elim (work-Comes o x (s.workers w) s.shared k e) [
        | inl before ↦ h w k before off
        | inr there ↦ let gone = a.removed k off in cc (there, gone)
      ]))
      (λ j n. rw (set_at_ne w p s.workers j n) (h j))
move-IsApart o (loops now x) s a h = λ w k e off.
    elim (loop_step-Turns now x s.loop s.shared k off) [
      | inl before ↦ h w k e before
      | inr there ↦
          let gone = removing-out (s.workers w) s.shared.table k (a.fits w) e in cc (there, gone)
    ]

Reaches-IsApart :
    (idle_timeout : ℕ) (root : Bytes) (s : System) (r : Reaches (system idle_timeout root) s)
    → ReusesNone r
    → AddsAll r
    → IsApart s
Reaches-IsApart idle_timeout root s starts n ok = λ w k e. cc e
Reaches-IsApart idle_timeout root s (moves {s = t} o m r f) n ok =
    move-IsApart o m t (Reaches-IsAttended idle_timeout root t r n.1 ok.1)
      (Reaches-IsApart idle_timeout root t r n.1 ok.1)

-- In every state that the threads reach, in any order of their steps, if no descriptor that a task or a worker
-- still has is accepted again and every EPOLL_CTL_ADD succeeds: a descriptor that a worker has taken out of
-- the table and closes is not in the table, and neither the loop nor another worker closes it.
pub Reaches-closes_alone :
    (idle_timeout : ℕ) (root : Bytes) (s : System) (r : Reaches (system idle_timeout root) s)
    → ReusesNone r
    → AddsAll r
    → (w fd : ℕ) → removing_at (s.workers w) ≡ some fd
    → (s.shared.table fd ≡ false)
      × (removed_by s.loop ≢ some fd)
      × ((j : ℕ) → removing_at (s.workers j) ≡ some fd → w ≡ j)
Reaches-closes_alone idle_timeout root s r n ok w fd e =
    let a = Reaches-IsAttended idle_timeout root s r n ok in
    let alone =
      (Reaches-exclusive idle_timeout root s r n w fd (removing-worker_at (s.workers w) fd e)).0 in
    (
      removing-out (s.workers w) s.shared.table fd (a.fits w) e,
      Reaches-IsApart idle_timeout root s r n ok w fd e,
      λ j x. alone j (removing-worker_at (s.workers j) fd x),
    )
