-- ===== src/HttpServer/Steps.antt =====
-- What can happen to the server, and the states that it can reach.
use mini_server.Prelude.{ℕ, ◌≡◌, Bool, none, List, [], ◌∷◌, one_if, sum, ◌==◌}
use mini_server.Bytes.{Bytes}
use mini_server.TimerHeap.{empty}
use mini_server.Epoller.{Interest, absent, disarmed, readable_once, writable_once, set_at}
use mini_server.HttpServer.{
  HttpServer, Outside, Task, reads, writes, accept_one, close_connection, dispatch,
}
use mini_server.HttpServer.Handlers.{
  ReadRun, WriteAnswer, handle_read, handle_write, close_idle_connections,
}

-- A client is accepted under a descriptor, and EPOLL_CTL_ADD succeeds or not; the kernel reports a hang-up, a readable or a writable
-- socket; a worker runs the first task; the loop closes the idle connections.
pub data Event : Type 0 where
  accepts : ℕ → Bytes → Bool → Event
  hangs_up : ℕ → Event
  is_readable : ℕ → Event
  is_writable : ℕ → Event
  works : ReadRun → (ℕ → WriteAnswer) → Event
  sweeps : Event

abbrev pub disarm : ℕ → HttpServer → HttpServer
disarm fd s = record s { interest = set_at fd disarmed s.interest }

-- The loop's dispatch; the kernel delivers an event only to a descriptor that is armed for it.
abbrev pub on_hang_up : Interest → ℕ → HttpServer → HttpServer
on_hang_up readable_once fd s = close_connection fd (disarm fd s)
on_hang_up writable_once fd s = close_connection fd (disarm fd s)
on_hang_up _ fd s = s

abbrev pub on_readable : Interest → ℕ → HttpServer → HttpServer
on_readable readable_once fd s = dispatch fd (reads fd) (disarm fd s)
on_readable _ fd s = s

abbrev pub on_writable : Interest → ℕ → HttpServer → HttpServer
on_writable writable_once fd s = dispatch fd (writes fd) (disarm fd s)
on_writable _ fd s = s

abbrev run_task : Outside → ℕ → ReadRun → (ℕ → WriteAnswer) → Task → HttpServer → HttpServer
run_task o now run answers (reads fd) s = handle_read o now run fd s
run_task o now run answers (writes fd) s = handle_write o now answers fd s

abbrev pub run_first :
    Outside → ℕ → ReadRun → (ℕ → WriteAnswer) → List Task → HttpServer → HttpServer
run_first o now run answers [] s = s
run_first o now run answers (t ∷ ts) s = run_task o now run answers t (record s { tasks = ts })

-- What one worker does with the task that it takes: what the files and the user service answer, the time,
-- and the answers of its socket.
pub record Work : Type 0 where
  pub outside : Outside
  pub now : ℕ
  pub run : ReadRun
  pub answers : ℕ → WriteAnswer

-- The workers take tasks one after the other.
unfoldable pub run_works : List Work → HttpServer → HttpServer
run_works [] s = s
run_works (w ∷ ws) s = run_works ws (run_first w.outside w.now w.run w.answers s.tasks s)

unfoldable pub step : Outside → ℕ → HttpServer → Event → HttpServer
step o now s (accepts fd ip added) = accept_one added now fd ip s
step o now s (hangs_up fd) = on_hang_up (s.interest fd) fd s
step o now s (is_readable fd) = on_readable (s.interest fd) fd s
step o now s (is_writable fd) = on_writable (s.interest fd) fd s
step o now s (works run answers) = run_first o now run answers s.tasks s
step o now s sweeps = close_idle_connections now s

-- The server as it starts.
abbrev pub http_server : ℕ → Bytes → HttpServer
http_server idle_timeout html_root = record {
  idle_timeout = idle_timeout;
  html_root = html_root;
  connections = λ fd. none;
  interest = λ fd. absent;
  timers = empty;
  tasks = [];
}

-- One for a task of that kind for the descriptor.
abbrev pub read_tasks : ℕ → Task → ℕ
read_tasks fd (reads k) = one_if (k == fd)
read_tasks fd (writes k) = 0

abbrev pub write_tasks : ℕ → Task → ℕ
write_tasks fd (reads k) = 0
write_tasks fd (writes k) = one_if (k == fd)

-- `accept` gives a descriptor that is not open: it has no connection and is not registered.
abbrev pub IsFair : HttpServer → Event → Type 0
IsFair s (accepts fd ip added) = (s.connections fd ≡ none) × (s.interest fd ≡ absent)
IsFair s _ = Unit

-- The descriptor that `accept` gives is not used again too early: no task is left for its last connection.
-- The code does nothing to bring this about.
abbrev pub ReusesNoneAt : HttpServer → Event → Type 0
ReusesNoneAt s (accepts fd ip added) =
    (sum (read_tasks fd) s.tasks ≡ 0) × (sum (write_tasks fd) s.tasks ≡ 0)
ReusesNoneAt s _ = Unit

-- The states of a server, by any sequence of fair events at any times. What the files and the user service
-- answer may differ from event to event.
pub data Reaches (start : HttpServer) : HttpServer → Type 0 where
  starts : Reaches start start
  steps :
      {s : HttpServer} (o : Outside) (now : ℕ) (e : Event)
      → Reaches start s
      → IsFair s e
      → Reaches start (step o now s e)

-- In no event on the way is a descriptor used again too early.
abbrev pub ReusesNone : {start s : HttpServer} → Reaches start s → Type 0
ReusesNone starts = Unit
ReusesNone (steps {s} o now e r f) = ReusesNoneAt s e × ReusesNone r
