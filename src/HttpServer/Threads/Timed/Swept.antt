-- ===== src/HttpServer/Threads/Timed/Swept.antt =====
-- The steps of the workers and of the loop beside the timers.
use mini_server.Prelude.{ℕ, List}
use mini_server.Bytes.{Bytes}
use mini_server.Connection.{Connection}
use mini_server.HttpServer.Threads.{Shared}
use mini_server.HttpServer.Threads.System.{Loop, System}
use mini_server.HttpServer.Threads.Timed.{AreTimed, to_close}

abbrev Holds : List ℕ → Shared → Type 0
Holds fds s = AreTimed fds s.table s.timers

abbrev LoopHolds : Loop × Shared → Type 0
LoopHolds r = Holds (to_close r.0) r.1
