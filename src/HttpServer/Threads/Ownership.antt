-- ===== src/HttpServer/Threads/Ownership.antt =====
-- Who has a descriptor: the kernel, the loop, the queue or a worker.
use mini_server.Prelude.{
  ℕ, ◌≤◌, ◌≡◌, refl, sym, ap, ◌≢◌, ◌⊎◌, inl, inr, Bool, true, false, Option, none, some, List, [],
  ◌∷◌, arith, ==-refl, All, Bool-cases, sum, ◌==◌,
}
use mini_server.Connection.{Connection}
use mini_server.Connection.Sending.{remaining}
use mini_server.Epoller.{Interest, absent, readable_once, writable_once, epoll_add}
use mini_server.HttpServer.{Task, reads, writes}
use mini_server.HttpServer.Threads.{
  Stage, getting_to_read, reading, renewing, getting_to_process, extracting, answering, settled,
  finishing, arming, Worker, idle, at, Shared,
}
use mini_server.HttpServer.Threads.System.{
  Loop, waiting, looking, beginning, enqueueing, registering, adding, closing_each, marking_first,
  deleting_first, shutting_first, System, task_fd, tasks_at, worker_at, Arrival, accepts, hangs_up,
  is_readable, is_writable, sweeps, fails, register, Move, works, loops, IsFair, ReusesNoneAt,
}

pub data Owner : Type 0 where
  nobody : Owner
  kernel : Owner
  loop_thread : Owner
  queue : Owner
  worker : ℕ → Owner

abbrev pub queued : Owner → ℕ
queued queue = 1
queued _ = 0

abbrev pub is_armed : Interest → Bool
is_armed readable_once = true
is_armed writable_once = true
is_armed _ = false

-- An open connection that is armed, or about to be, is not being processed, and if it is armed for reading
-- nothing is left to send.
abbrev pub IsRested : Interest → Connection → Type 0
IsRested readable_once c = (c.closed ≡ false → c.processing ≡ false) × (remaining c ≡ [])
IsRested writable_once c = c.closed ≡ false → c.processing ≡ false
IsRested _ c = Unit

-- A worker that reads, or extracts and answers, finds nothing left to send.
abbrev pub IsAtStage : Stage → Connection → Type 0
IsAtStage getting_to_read c = remaining c ≡ []
IsAtStage reading c = remaining c ≡ []
IsAtStage renewing c = remaining c ≡ []
IsAtStage getting_to_process c = remaining c ≡ []
IsAtStage extracting c = remaining c ≡ []
IsAtStage (answering raw) c = remaining c ≡ []
IsAtStage (settled closes pending) c = remaining c ≡ []
IsAtStage finishing c = remaining c ≡ []
IsAtStage (arming wanted) c = IsRested wanted c
IsAtStage _ c = Unit

abbrev pub IsWorker : Worker → (ℕ → Connection) → Type 0
IsWorker idle objects = Unit
IsWorker (at fd stage) objects = IsAtStage stage (objects fd)

abbrev pub IsTask : (ℕ → Connection) → Task → Type 0
IsTask objects (reads fd) = remaining (objects fd) ≡ []
IsTask objects (writes fd) = Unit

abbrev pub armed_for : Task → Interest
armed_for (reads fd) = readable_once
armed_for (writes fd) = writable_once

abbrev pub loop_at : Loop → Option ℕ
loop_at (looking t) = some (task_fd t)
loop_at (beginning t) = some (task_fd t)
loop_at (enqueueing t) = some (task_fd t)
loop_at (registering fd ip) = some fd
loop_at (adding fd) = some fd
loop_at _ = none

abbrev pub IsLoop : Loop → (ℕ → Connection) → Type 0
IsLoop (looking t) objects = IsRested (armed_for t) (objects (task_fd t))
IsLoop (beginning t) objects = IsRested (armed_for t) (objects (task_fd t))
IsLoop (enqueueing t) objects = IsTask objects t
IsLoop (adding fd) objects = IsRested readable_once (objects fd)
IsLoop _ objects = Unit

-- Each descriptor has one owner: the kernel if it is armed, the loop or a worker at it, the queue for a
-- task; and each finds the connection as it needs it.
pub record IsOwned (owner : ℕ → Owner) (s : System) : Type 0 where
  pub workers_own : (w fd : ℕ) → worker_at (s.workers w) ≡ some fd → owner fd ≡ worker w
  pub workers_ok : (w : ℕ) → IsWorker (s.workers w) s.shared.objects
  pub queue_owns : (fd : ℕ) → sum (tasks_at fd) s.shared.tasks ≤ queued (owner fd)
  pub queue_ok : All (IsTask s.shared.objects) s.shared.tasks
  pub armed_owns : (fd : ℕ) → is_armed (s.shared.interest fd) ≡ true → owner fd ≡ kernel
  pub armed_ok : (fd : ℕ) → IsRested (s.shared.interest fd) (s.shared.objects fd)
  pub loop_owns : (fd : ℕ) → loop_at s.loop ≡ some fd → owner fd ≡ loop_thread
  pub loop_ok : IsLoop s.loop s.shared.objects

-- A step that changes nothing at other descriptors and no task.
pub record OnlyAt (fd : ℕ) (s t : Shared) : Type 0 where
  pub other_object : (j : ℕ) → fd ≢ j → t.objects j ≡ s.objects j
  pub other_interest : (j : ℕ) → fd ≢ j → t.interest j ≡ s.interest j
  pub same_tasks : t.tasks ≡ s.tasks

not_eq : (k fd : ℕ) → (k == fd) ≡ false → fd ≢ k
not_eq k fd h e = cc (h, ==-refl fd, ap (λ x. x == fd) e)

-- The facts of one thread read only its own descriptor.
pub IsWorker-other :
    (p : Worker) (f g : ℕ → Connection) (fd : ℕ)
    → ((j : ℕ) → fd ≢ j → g j ≡ f j)
    → (worker_at p ≢ some fd)
    → IsWorker p f
    → IsWorker p g
IsWorker-other idle f g fd same n h = tt
IsWorker-other (at k stage) f g fd same n h = rw (same k (λ e. n (ap some (sym e)))) h

IsTask-other :
    (f g : ℕ → Connection) (fd : ℕ) (t : Task)
    → ((j : ℕ) → fd ≢ j → g j ≡ f j)
    → fd ≢ task_fd t
    → IsTask f t
    → IsTask g t
IsTask-other f g fd (reads k) same n h = rw (same k n) h
IsTask-other f g fd (writes k) same n h = tt

pub tasks-other :
    (f g : ℕ → Connection) (fd : ℕ) (ts : List Task)
    → ((j : ℕ) → fd ≢ j → g j ≡ f j)
    → sum (tasks_at fd) ts ≡ 0
    → All (IsTask f) ts
    → All (IsTask g) ts
tasks-other f g fd [] same n h = tt
tasks-other f g fd (t ∷ ts) same n h = elim (Bool-cases (task_fd t == fd)) [
  | inl own ↦ absurd (let m = rw own at n in omega arith)
  | inr other ↦ (
    IsTask-other f g fd t same (not_eq (task_fd t) fd other) h.0,
    tasks-other f g fd ts same (omega arith) h.1,
  )
]

pub IsLoop-other :
    (l : Loop) (f g : ℕ → Connection) (fd : ℕ)
    → ((j : ℕ) → fd ≢ j → g j ≡ f j)
    → (loop_at l ≢ some fd)
    → IsLoop l f
    → IsLoop l g
IsLoop-other (looking t) f g fd same n h = rw (same (task_fd t) (λ e. n (ap some (sym e)))) h
IsLoop-other (beginning t) f g fd same n h = rw (same (task_fd t) (λ e. n (ap some (sym e)))) h
IsLoop-other (enqueueing t) f g fd same n h =
    IsTask-other f g fd t same (λ e. n (ap some (sym e))) h
IsLoop-other (adding k) f g fd same n h = rw (same k (λ e. n (ap some (sym e)))) h
IsLoop-other waiting f g fd same n h = tt
IsLoop-other (registering k ip) f g fd same n h = tt
IsLoop-other (closing_each fds) f g fd same n h = tt
IsLoop-other (marking_first k fds) f g fd same n h = tt
IsLoop-other (deleting_first k fds) f g fd same n h = tt
IsLoop-other (shutting_first k fds) f g fd same n h = tt

-- What a fair move that uses no descriptor again too early relies on.
abbrev pub IsSafe : System → Move → Type 0
IsSafe s (loops now (accepts fd ip)) =
    (s.shared.interest fd ≡ absent)
    × (sum (tasks_at fd) s.shared.tasks ≡ 0)
    × ((w : ℕ) → worker_at (s.workers w) ≢ some fd)
IsSafe s _ = Unit

pub fair-IsSafe : (s : System) (m : Move) → IsFair s m → ReusesNoneAt s m → IsSafe s m
fair-IsSafe s (loops now (accepts fd ip)) (out, free, closed) (no_task, no_worker) =
    (free, no_task, no_worker)
fair-IsSafe s (loops now (hangs_up fd)) f n = tt
fair-IsSafe s (loops now (is_readable fd)) f n = tt
fair-IsSafe s (loops now (is_writable fd)) f n = tt
fair-IsSafe s (loops now sweeps) f n = tt
fair-IsSafe s (loops now fails) f n = tt
fair-IsSafe s (works w a) f n = tt

pub register-cases :
    (x : Arrival) (fd : ℕ) (s : Shared)
    → (x ≡ fails)
      ⊎ (register x fd s ≡ record s { interest = epoll_add fd readable_once s.interest })
register-cases (accepts j ip) fd s = inr refl
register-cases (hangs_up j) fd s = inr refl
register-cases (is_readable j) fd s = inr refl
register-cases (is_writable j) fd s = inr refl
register-cases sweeps fd s = inr refl
register-cases fails fd s = inl refl
