-- ===== src/HttpServer/Tests/Lifecycle.antt =====
-- A server that starts and is stopped.
use mini_server.Prelude.{ℕ, ◌+◌, ◌≡◌, refl, true, false, some, List, [], ◌∷◌}
use mini_server.Epoller.{valid, or_nonblock, set_nonblocking}
use mini_server.Logger.{Logger, logger}
use mini_server.DatabasePool.{
  connected, connect_loop, init_schema, with_schema, acquire, release, destroy_lease,
}
use mini_server.HttpServer.Config.{http_server_config}
use mini_server.HttpServer.Handlers.{no_more_yet, would_block}
use mini_server.HttpServer.Steps.{Work}
use mini_server.HttpServer.Listening.{
  Network, init_listen_socket, after_socket, creates, reuses_address, binds, closes,
}
use mini_server.HttpServer.Listening.Opened.{IsListening, init_listen_socket-IsListening}
use mini_server.HttpServer.Loop.{Round, interrupted, event_loop}
use mini_server.HttpServer.Lifecycle.{
  Lifecycle, Startup, new_server, after_database, begin_start, Started, returned, in_loop,
  in_database, run_tasks, join_workers, stop,
}
use mini_server.HttpServer.Lifecycle.Stopping.{Lists}
use mini_server.HttpServer.Lifecycle.Starting.{IsClosed, stop-start-IsClosed}
use mini_server.HttpServer.Tests.{outside}

abbrev network : Network
network = record {
  socket = some 3;
  bound = true;
  listening = true;
  flags = some 2;
  flags_set = true;
}

-- The port is taken.
port_taken :
    (init_listen_socket 8080 (record network { bound = false })).calls
    ≡ creates 3 ∷ reuses_address 3 ∷ binds 3 8080 ∷ closes 3 ∷ []
unfolding init_listen_socket after_socket
port_taken = refl

abbrev startup : Startup
startup = record {
  attempt = λ n. connected (100 + n);
  schema_ok = true;
  network = network;
  registered = true;
}

abbrev stops_at_once : List Round
stops_at_once =
    record {
      stop_requested = true;
      while_waiting = [];
      waited = interrupted;
      before_sweep = [];
      sweep_now = 0;
    }
    ∷ []

abbrev idle : ℕ → Work
idle k = record {
  outside = outside;
  now = 5;
  run = record { chunks = []; last = no_more_yet };
  answers = λ n. would_block;
}

abbrev log : Logger
log = logger (λ n. true)

abbrev begun : Lifecycle
begun = record (new_server http_server_config (some 4) log) { listen_fd = some 3 }

init_listen_socket-IsListening_example : IsListening 8080 network (init_listen_socket 8080 network)
init_listen_socket-IsListening_example = init_listen_socket-IsListening 8080 network

-- The server starts and is asked to stop at once.
abbrev ended : Started → Lifecycle
ended (returned b l) = l
ended (in_loop l) = l
ended in_database = begun

abbrev started : Started
started =
    mini_server.HttpServer.Lifecycle.start startup stops_at_once
      (new_server http_server_config (some 4) log)

ran_returns : started ≡ returned true (ended started)
unfolding mini_server.HttpServer.Lifecycle.start begin_start after_database init_listen_socket
    after_socket set_nonblocking or_nonblock event_loop valid connect_loop init_schema with_schema
    acquire release destroy_lease mini_server.DatabasePool.init mini_server.Logger.init
ran_returns = refl

nobody : Lists [] (join_workers idle (ended started).threads (ended started).server)
unfolding mini_server.HttpServer.Lifecycle.start begin_start after_database init_listen_socket
    after_socket set_nonblocking or_nonblock event_loop valid connect_loop init_schema with_schema
    acquire release destroy_lease mini_server.DatabasePool.init mini_server.Logger.init run_tasks
nobody a = refl

stop-start-IsClosed_example :
    IsClosed
      (join_workers idle (ended started).threads (ended started).server)
      (stop idle [] (ended started))
stop-start-IsClosed_example =
    stop-start-IsClosed startup stops_at_once http_server_config (some 4) log true (ended started)
      idle [] ran_returns nobody
