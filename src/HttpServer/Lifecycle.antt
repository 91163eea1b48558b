-- ===== src/HttpServer/Lifecycle.antt =====
-- `HttpServer::start`, `stop`, the constructor and the destructor: the parts of the server around the
-- state that the handlers work on.
-- `calls` are the calls on the listening socket and the closings by `stop`; those by
-- `closeConnection` are not among them. The order in which `stop`
-- meets the table's connections is an argument, as the table is unordered, and so are the runs of the
-- tasks that the workers still take while it joins them. A timeout below 0 counts as 0: either is due
-- at the next sweep. Directories and console output are left out.

pub mod Stopping
pub mod Starting
use mini_server.Prelude.{
  ℕ, ◌+◌, Bool, true, false, not, ◌&&◌, Option, none, some, List, [], ◌∷◌, ◌++◌, if◌then◌else◌,
  is_none, ◌==◌,
}
use mini_server.Bytes.Integer.{ℤ, pos, negsuc}
use mini_server.Epoller.{Epoller, epoller, valid, epoll_del}
use mini_server.DatabasePool.{DatabasePool, database_pool, Connect}
use mini_server.Logger.{Logger, shutdown}
use mini_server.HttpServer.{HttpServer, Task}
use mini_server.HttpServer.Steps.{Work, run_first, http_server}
use mini_server.HttpServer.Config.{HttpServerConfig}
use mini_server.HttpServer.Listening.{Call, closes, Network, init_listen_socket, held}
use mini_server.HttpServer.Loop.{Round, LoopEnd, stopped, failed, looping, event_loop}

pub record Lifecycle : Type 0 where
  pub config : HttpServerConfig
  pub listen_fd : Option ℕ
  pub running : Bool
  pub epoll : Epoller
  pub threads : ℕ
  pub log : Logger
  pub database : DatabasePool
  pub server : HttpServer
  pub calls : List Call

abbrev seconds : ℤ → ℕ
seconds (pos n) = n
seconds (negsuc n) = 0

-- HttpServer(config), for the answer of `epoll_create1`. The logger is the process's one.
abbrev pub new_server : HttpServerConfig → Option ℕ → Logger → Lifecycle
new_server config epfd log = record {
  config = config;
  listen_fd = none;
  running = false;
  epoll = epoller epfd;
  threads = 0;
  log = log;
  database = database_pool config.database.pool_size;
  server = http_server (seconds config.idle_timeout_seconds) config.html_root;
  calls = [];
}

-- What the database, the network and `epoll_ctl` answer while the server starts.
pub record Startup : Type 0 where
  pub attempt : ℕ → Connect
  pub schema_ok : Bool
  pub network : Network
  pub registered : Bool

-- From `epoller_.add` to the loop.
abbrev register : Startup → Lifecycle → Bool × Lifecycle
register u l =
    if u.registered
    then (true, record l { running = true; threads = l.config.worker_threads })
    else (false, l)

abbrev listen : Startup → Lifecycle → Bool × Lifecycle
listen u l =
    let r = init_listen_socket l.config.port u.network in
    let m : Lifecycle = record l { listen_fd = r.listen_fd; calls = l.calls ++ r.calls } in
    if r.ok then register u m else (false, m)

-- From `epoller_.valid` on.
unfoldable pub after_database : Startup → Bool × DatabasePool → Lifecycle → Bool × Lifecycle
after_database u (ok, db) l =
    let m : Lifecycle = record l { database = db } in
    if ok && valid m.epoll then listen u m else (false, m)

-- `start` up to the loop; `none`: the database's `init` waits for ever.
unfoldable pub begin_start : Startup → Lifecycle → Option (Bool × Lifecycle)
begin_start u l =
    let m : Lifecycle = record l { log = mini_server.Logger.init l.config.access_log_path l.log } in
    elim (mini_server.DatabasePool.init u.attempt u.schema_ok m.database) [
      | none ↦ none
      | some r ↦ some (after_database u r m)
    ]

-- How far `start` has come.
pub data Started : Type 0 where
  returned : Bool → Lifecycle → Started
  in_loop : Lifecycle → Started
  in_database : Started

-- `requestStop` clears `running_`, a failed wait does not.
abbrev pub after_loop : LoopEnd × HttpServer → Lifecycle → Started
after_loop (stopped, s) l = returned true (record l { server = s; running = false })
after_loop (failed, s) l = returned true (record l { server = s })
after_loop (looping, s) l = in_loop (record l { server = s })

abbrev pub run_loop : List Round → Option (Bool × Lifecycle) → Started
run_loop rounds none = in_database
run_loop rounds (some (false, l)) = returned false l
run_loop rounds (some (true, l)) = after_loop (event_loop l.listen_fd rounds l.server) l

-- HttpServer::start
unfoldable pub start : Startup → List Round → Lifecycle → Started
start u rounds l = run_loop rounds (begin_start u l)

-- The tasks in the queue, each run by the next work.
unfoldable pub run_tasks : (ℕ → Work) → ℕ → List Task → HttpServer → HttpServer
run_tasks works k [] s = s
run_tasks works k (t ∷ ts) s =
    run_tasks works (k + 1) ts
      (run_first (works k).outside (works k).now (works k).run (works k).answers (t ∷ ts) s)

-- `workers_.stop()`: without a thread no task is run.
abbrev pub join_workers : (ℕ → Work) → ℕ → HttpServer → HttpServer
join_workers works threads s = if threads == 0 then s else run_tasks works 0 s.tasks s

-- `close` of each connection in the table; a closed descriptor is no longer registered.
unfoldable pub close_each : List ℕ → HttpServer → HttpServer
close_each [] s = s
close_each (fd ∷ fds) s = close_each fds (record s { interest = epoll_del fd s.interest })

abbrev pub closings : List ℕ → List Call
closings [] = []
closings (fd ∷ fds) = closes fd ∷ closings fds

-- connections_.clear()
abbrev pub clear_table : HttpServer → HttpServer
clear_table s = record s { connections = λ fd. none }

abbrev pub stop_running : (ℕ → Work) → List ℕ → Lifecycle → Lifecycle
stop_running works order l = record l {
  running = false;
  threads = 0;
  log = shutdown l.log;
  server = clear_table (close_each order (join_workers works l.threads l.server));
  calls = l.calls ++ (closings order ++ closings (held l.listen_fd));
  listen_fd = none;
}

-- HttpServer::stop, and ~HttpServer()
unfoldable pub stop : (ℕ → Work) → List ℕ → Lifecycle → Lifecycle
stop works order l = if not l.running && is_none l.listen_fd then l else stop_running works order l
