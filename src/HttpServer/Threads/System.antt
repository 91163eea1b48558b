-- ===== src/HttpServer/Threads/System.antt =====
-- The loop's thread beside any number of workers, and the states that they reach in any order.
use mini_server.Prelude.{
  ℕ, ◌≡◌, ◌≢◌, true, false, Option, none, some, List, [], ◌∷◌, ◌++◌, if◌then◌else◌, one_if, sum,
  ◌==◌,
}
use mini_server.Bytes.{Bytes}
use mini_server.Connection.{Connection, connection, mark_closed}
use mini_server.Epoller.{
  Interest, absent, disarmed, readable_once, writable_once, set_at, epoll_add,
}
use mini_server.TimerHeap.{pop_expired, empty}
use mini_server.HttpServer.{Outside, Task, reads, writes, begin_processing}
use mini_server.HttpServer.Threads.{
  marking, deleting, shutting, Worker, idle, at, Shared, Answer, set_object, set_timer, forget,
  unregister, work,
}

-- Where the loop stands: `epoll_wait`; `dispatchRead` or `dispatchWrite` for a task; `handleAccept` for a
-- descriptor; `closeConnection` for one descriptor and then for others.
pub data Loop : Type 0 where
  waiting : Loop
  looking : Task → Loop
  beginning : Task → Loop
  enqueueing : Task → Loop
  registering : ℕ → Bytes → Loop
  adding : ℕ → Loop
  closing_each : List ℕ → Loop
  marking_first : ℕ → List ℕ → Loop
  deleting_first : ℕ → List ℕ → Loop
  shutting_first : ℕ → List ℕ → Loop

-- What the loop turns to when it waits: a client, a reported descriptor, the idle sweep; or its next system
-- call fails, the wait because it is interrupted.
pub data Arrival : Type 0 where
  accepts : ℕ → Bytes → Arrival
  hangs_up : ℕ → Arrival
  is_readable : ℕ → Arrival
  is_writable : ℕ → Arrival
  sweeps : Arrival
  fails : Arrival

abbrev pub task_fd : Task → ℕ
task_fd (reads fd) = fd
task_fd (writes fd) = fd

abbrev pub disarm : ℕ → Shared → Shared
disarm fd s = record s { interest = set_at fd disarmed s.interest }

-- The kernel reports a descriptor only if it is armed for that, and disarms it.
abbrev pub hung_up : Interest → ℕ → Shared → Loop × Shared
hung_up readable_once fd s = (closing_each (fd ∷ []), disarm fd s)
hung_up writable_once fd s = (closing_each (fd ∷ []), disarm fd s)
hung_up _ fd s = (waiting, s)

abbrev pub readable : Interest → ℕ → Shared → Loop × Shared
readable readable_once fd s = (looking (reads fd), disarm fd s)
readable _ fd s = (waiting, s)

abbrev pub writable : Interest → ℕ → Shared → Loop × Shared
writable writable_once fd s = (looking (writes fd), disarm fd s)
writable _ fd s = (waiting, s)

abbrev pub arrive : ℕ → Arrival → Shared → Loop × Shared
arrive now (accepts fd ip) s = (registering fd ip, s)
arrive now (hangs_up fd) s = hung_up (s.interest fd) fd s
arrive now (is_readable fd) s = readable (s.interest fd) fd s
arrive now (is_writable fd) s = writable (s.interest fd) fd s
arrive now sweeps s =
    let swept = pop_expired now s.timers in
    (closing_each swept.expired, record s { timers = swept.timers })
arrive now fails s = (waiting, s)

-- EPOLL_CTL_ADD, whose failure is ignored.
abbrev pub register : Arrival → ℕ → Shared → Shared
register fails fd s = s
register _ fd s = record s { interest = epoll_add fd readable_once s.interest }

-- `beginProcessing` and the test of its result.
abbrev pub begin_task : Option Connection → Task → Shared → Loop × Shared
begin_task none t s = (waiting, s)
begin_task (some c) t s = (enqueueing t, set_object (task_fd t) c s)

abbrev pub close_next : List ℕ → Shared → Loop × Shared
close_next [] s = (waiting, s)
close_next (fd ∷ fds) s = (
  if s.table fd then marking_first fd fds else closing_each fds,
  if s.table fd then forget fd s else s,
)

unfoldable pub loop_step : ℕ → Arrival → Loop → Shared → Loop × Shared
loop_step now a waiting s = arrive now a s
loop_step now a (looking t) s = (if s.table (task_fd t) then beginning t else waiting, s)
loop_step now a (beginning t) s = begin_task (begin_processing (s.objects (task_fd t))) t s
loop_step now a (enqueueing t) s = (waiting, record s { tasks = s.tasks ++ t ∷ [] })
loop_step now a (registering fd ip) s =
    let stored = set_object fd (connection fd ip now) s in
    (adding fd, set_timer now fd (record stored { table = set_at fd true s.table }))
loop_step now a (adding fd) s = (waiting, register a fd s)
loop_step now a (closing_each fds) s = close_next fds s
loop_step now a (marking_first fd fds) s =
    (deleting_first fd fds, set_object fd (mark_closed (s.objects fd)) s)
loop_step now a (deleting_first fd fds) s = (shutting_first fd fds, unregister fd s)
loop_step now a (shutting_first fd fds) s = (closing_each fds, s)

pub record System : Type 0 where
  pub shared : Shared
  pub loop : Loop
  pub workers : ℕ → Worker

-- A worker takes a step, or the loop does.
pub data Move : Type 0 where
  works : ℕ → Answer → Move
  loops : ℕ → Arrival → Move

unfoldable pub move : Outside → System → Move → System
move o s (works w a) =
    let r = work o a (s.workers w) s.shared in
    record s { shared = r.1; workers = set_at w r.0 s.workers }
move o s (loops now a) =
    let r = loop_step now a s.loop s.shared in record s { shared = r.1; loop = r.0 }

abbrev pub tasks_at : ℕ → Task → ℕ
tasks_at fd t = one_if (task_fd t == fd)

abbrev pub worker_at : Worker → Option ℕ
worker_at idle = none
worker_at (at fd stage) = some fd

-- The descriptor that a worker has taken out of the table, and closes.
abbrev pub removing_at : Worker → Option ℕ
removing_at (at fd marking) = some fd
removing_at (at fd deleting) = some fd
removing_at (at fd shutting) = some fd
removing_at _ = none

-- `accept` gives a descriptor that is not open: out of the table, not registered, and closed by the worker
-- that took it out of the table, if one did.
abbrev pub IsFair : System → Move → Type 0
IsFair s (loops now (accepts fd ip)) =
    (s.shared.table fd ≡ false)
    × (s.shared.interest fd ≡ absent)
    × ((w : ℕ) → removing_at (s.workers w) ≢ some fd)
IsFair s _ = Unit

-- The descriptor that `accept` gives is not used again too early: no task is left for its last connection,
-- and no worker is at it. The code does nothing to bring this about.
abbrev pub ReusesNoneAt : System → Move → Type 0
ReusesNoneAt s (loops now (accepts fd ip)) =
    (sum (tasks_at fd) s.shared.tasks ≡ 0) × ((w : ℕ) → worker_at (s.workers w) ≢ some fd)
ReusesNoneAt s _ = Unit

-- EPOLL_CTL_ADD succeeds. The code ignores its failure.
abbrev pub AddsAt : System → Move → Type 0
AddsAt s (loops now x) = (fd : ℕ) → s.loop ≡ adding fd → x ≢ fails
AddsAt s _ = Unit

-- The server as it starts, its workers idle.
abbrev pub system : ℕ → Bytes → System
system idle_timeout html_root = record {
  shared = record {
    idle_timeout = idle_timeout;
    html_root = html_root;
    objects = λ fd. connection fd [] 0;
    table = λ fd. false;
    interest = λ fd. absent;
    timers = empty;
    tasks = [];
  };
  loop = waiting;
  workers = λ w. idle;
}

-- The states behind any moves, in any order. What the files and the user service answer may differ from move
-- to move.
pub data Reaches (start : System) : System → Type 0 where
  starts : Reaches start start
  moves :
      {s : System} (o : Outside) (m : Move)
      → Reaches start s
      → IsFair s m
      → Reaches start (move o s m)

-- In no move on the way is a descriptor used again too early.
abbrev pub ReusesNone : {start s : System} → Reaches start s → Type 0
ReusesNone starts = Unit
ReusesNone (moves {s} o m r f) = ReusesNoneAt s m × ReusesNone r

-- Every EPOLL_CTL_ADD on the way succeeds.
abbrev pub AddsAll : {start s : System} → Reaches start s → Type 0
AddsAll starts = Unit
AddsAll (moves {s} o m r f) = AddsAt s m × AddsAll r
