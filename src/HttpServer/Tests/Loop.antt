-- ===== src/HttpServer/Tests/Loop.antt =====
-- A run of the event loop.
use mini_server.Prelude.{◌≡◌, refl, true, false, some, List, [], ◌∷◌}
use mini_server.Bytes.{codes}
use mini_server.Connection.{connection}
use mini_server.TimerHeap.{add_or_update, push, pop_expired}
use mini_server.HttpServer.{reads, accept_one, dispatch, begin_processing}
use mini_server.HttpServer.Handlers.{close_idle_connections, close_all}
use mini_server.HttpServer.Steps.{run_works}
use mini_server.HttpServer.Loop.{
  Report, Round, Waited, interrupted, reported, handle_report, handle_reports, handle_accept,
  sweep_round, event_loop,
}
use mini_server.HttpServer.Tests.{start}

abbrev report : Report
report = record {
  fd = 3;
  hang_up = false;
  error = false;
  readable = true;
  writable = false;
  accepted = (5, codes "10.0.0.1", true) ∷ [];
  before = [];
  now = 1;
}

-- The listening socket has a client, which then sends bytes.
abbrev reports : List Report
reports = report ∷ record report { fd = 5; accepted = [] } ∷ []

abbrev round : Waited → Round
round waited = record {
  stop_requested = false;
  while_waiting = [];
  waited = waited;
  before_sweep = [];
  sweep_now = 2;
}

-- A wait that is interrupted, one that reports both, and the request to stop.
abbrev rounds : List Round
rounds =
    round interrupted
    ∷ round (reported reports)
    ∷ record (round interrupted) { stop_requested = true }
    ∷ []

task_waits : (event_loop (some 3) rounds start).1.tasks ≡ reads 5 ∷ []
unfolding event_loop sweep_round close_idle_connections close_all pop_expired run_works
    handle_reports handle_report dispatch handle_accept accept_one begin_processing connection
    add_or_update push
task_waits = refl
