-- ===== src/HttpServer/Traffic.antt =====
-- What passes through a descriptor since it was accepted: the bytes received, the requests extracted
-- from them, and the bytes sent.
pub mod Unmoved
pub mod Carried
pub mod Handled
pub mod Served
use mini_server.Prelude.{ℕ, not, ◌&&◌, Option, none, some, List, [], ◌∷◌, ◌++◌, if◌then◌else◌, ◌==◌}
use mini_server.Bytes.{Bytes}
use mini_server.Connection.{Connection, extract_one_request, has_pending_read}
use mini_server.HttpServer.{HttpServer, Outside, Task, reads, writes}
use mini_server.HttpServer.Handlers.{
  ReadRun, ReadEnd, no_more_yet, WriteAnswer, WriteEnd, drained, append_chunks, concat, written,
}
use mini_server.HttpServer.Steps.{Event, accepts, works, Reaches, starts, steps}
use mini_server.HttpServer.Phases.Writing.{cleared}

-- A request comes with what the files and the user service answer when it is extracted.
pub record Traffic : Type 0 where
  pub received : Bytes
  pub requests : List (Outside × Bytes)
  pub sent : Bytes

abbrev pub no_traffic : Traffic
no_traffic = record { received = []; requests = []; sent = [] }

-- A request is extracted, or none.
abbrev pub took : Outside → Option Bytes → Traffic → Traffic
took o none t = t
took o (some raw) t = record t { requests = t.requests ++ (o, raw) ∷ [] }

-- A request is extracted only behind reads that end because no more bytes are there yet.
abbrev pub read_ended : Outside → ReadEnd → Connection → Traffic → Traffic
read_ended o no_more_yet c t = took o (extract_one_request c).1 t
read_ended o _ c t = t

abbrev pub read_traffic : Outside → ℕ → ReadRun → Option Connection → Traffic → Traffic
read_traffic o now run none t = t
read_traffic o now run (some c) t =
    read_ended o run.last (append_chunks now run.chunks c)
      (record t { received = t.received ++ concat run.chunks })

-- A response is sent: the next request is extracted if there are bytes and the connection stays.
abbrev pub write_ended : Outside → WriteEnd → Connection → Traffic → Traffic
write_ended o drained c t =
    if not c.close_after_write && has_pending_read c
    then took o (extract_one_request (cleared c)).1 t
    else t
write_ended o _ c t = t

abbrev pub write_traffic : Outside → (ℕ → WriteAnswer) → Option Connection → Traffic → Traffic
write_traffic o answers none t = t
write_traffic o answers (some c) t =
    let w = written answers c in
    write_ended o w.result w.conn (record t { sent = t.sent ++ w.bytes })

-- The first task is run; it may be one of another descriptor.
abbrev pub work_traffic :
    Outside → ℕ → ReadRun → (ℕ → WriteAnswer) → ℕ → List Task → HttpServer → Traffic → Traffic
work_traffic o now run answers fd [] s t = t
work_traffic o now run answers fd (reads k ∷ ts) s t =
    if k == fd then read_traffic o now run (s.connections fd) t else t
work_traffic o now run answers fd (writes k ∷ ts) s t =
    if k == fd then write_traffic o answers (s.connections fd) t else t

abbrev pub event_traffic : Outside → ℕ → ℕ → HttpServer → Event → Traffic → Traffic
event_traffic o fd now s (accepts k ip added) t = if k == fd then no_traffic else t
event_traffic o fd now s (works run answers) t = work_traffic o now run answers fd s.tasks s t
event_traffic o fd now s _ t = t

-- The traffic of a descriptor along the events that lead to a state.
unfoldable pub traffic : {start s : HttpServer} → ℕ → Reaches start s → Traffic
traffic fd starts = no_traffic
traffic fd (steps {s} o now e r f) = event_traffic o fd now s e (traffic fd r)
