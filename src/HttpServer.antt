-- ===== src/HttpServer.antt =====
-- http_server.h and http_server.cpp: the connection table, the event loop and the handlers that the
-- worker threads run.
-- The table of connections is a function of the descriptor. A handler is one step here and in Steps: any
-- events may come between its dispatch and its run; what its locks let in between its parts is in Threads.
-- A handler reads the clock once. A closed connection is out of the table, so its object is dropped with
-- its flag. The socket and the system calls of `start` and `stop` are in the children; the logs are left
-- out.
pub mod Handlers
pub mod Sending
pub mod Steps
pub mod Loop
pub mod Config
pub mod Listening
pub mod Lifecycle
pub mod Phases
pub mod Answers
pub mod Keeping
pub mod Traffic
pub mod Threads
mod Tests
use mini_server.Epoller.{
  readable_once, set_at, Interest, epoll_add, epoll_mod, epoll_del, writable_once,
}
use mini_server.Prelude.{
  ℕ, ◌+◌, Bool, true, false, not, ◌&&◌, Option, none, some, List, [], ◌∷◌, ◌++◌, if◌then◌else◌,
}
use mini_server.Bytes.{Bytes, codes}
use mini_server.Connection.{
  Connection, connection, set_processing, set_close_after_write, append_write_data,
  set_mapped_write_data, extract_one_request,
}
use mini_server.HttpRequest.{HttpRequest, http_request, parse}
use mini_server.RequestRouter.{Users, RoutedResponse, handles, route}
use mini_server.HttpResponse.{FileAnswer, MappedFile, contents, build_text}
use mini_server.HttpResponse.Page.{PreparedResponse, prepare}
use mini_server.TimerHeap.{TimerHeap, add_or_update, remove}

-- A handler that waits for a worker.
pub data Task : Type 0 where
  reads : ℕ → Task
  writes : ℕ → Task

pub record HttpServer : Type 0 where
  pub idle_timeout : ℕ
  pub html_root : Bytes
  pub connections : ℕ → Option Connection
  pub interest : ℕ → Interest
  pub timers : TimerHeap
  pub tasks : List Task

-- What the file system and the user service answer.
pub record Outside : Type 0 where
  pub files : Bytes → FileAnswer
  pub users : Users

abbrev pub put_connection : ℕ → Connection → HttpServer → HttpServer
put_connection fd c s = record s { connections = set_at fd (some c) s.connections }

abbrev pub rearm : ℕ → Interest → HttpServer → HttpServer
rearm fd wanted s = record s { interest = epoll_mod fd wanted s.interest }

abbrev pub renew_timer : ℕ → ℕ → HttpServer → HttpServer
renew_timer now fd s = record s { timers = add_or_update fd (now + s.idle_timeout) s.timers }

-- One round of `handleAccept`, for a descriptor that `accept` returned. `added` is whether EPOLL_CTL_ADD
-- succeeds, which the code does not look at.
unfoldable pub accept_one : Bool → ℕ → ℕ → Bytes → HttpServer → HttpServer
accept_one added now fd peer_ip s =
    let stored : HttpServer =
      renew_timer now fd (put_connection fd (connection fd peer_ip now) s) in
    record stored { interest = if added then epoll_add fd readable_once s.interest else s.interest }

abbrev pub without_connection : ℕ → HttpServer → HttpServer
without_connection fd s = record s {
  connections = set_at fd none s.connections;
  timers = remove fd s.timers;
  interest = epoll_del fd s.interest;
}

-- HttpServer::closeConnection; `close(fd)` is what makes the descriptor free for `accept`.
unfoldable pub close_connection : ℕ → HttpServer → HttpServer
close_connection fd s = elim (s.connections fd) [ none ↦ s | some c ↦ without_connection fd s ]

-- HttpServer::beginProcessing; `none` is the result `false`.
unfoldable pub begin_processing : Connection → Option Connection
begin_processing c = if not c.closed && not c.processing then some (set_processing true c) else none

-- HttpServer::finishProcessing
unfoldable pub finish_processing : Connection → Connection
finish_processing c = if c.closed then c else set_processing false c

abbrev pub dispatch_begun : ℕ → Task → Option Connection → HttpServer → HttpServer
dispatch_begun fd task none s = s
dispatch_begun fd task (some c) s = record (put_connection fd c s) { tasks = s.tasks ++ task ∷ [] }

-- HttpServer::dispatchRead and dispatchWrite, which differ in the task.
unfoldable pub dispatch : ℕ → Task → HttpServer → HttpServer
dispatch fd task s = elim (s.connections fd) [
  | none ↦ s
  | some c ↦ dispatch_begun fd task (begin_processing c) s
]

-- The answer to a text that does not parse.
abbrev pub bad_request : Bytes
bad_request =
    codes
      "HTTP/1.1 400 Bad Request\r\nContent-Type: text/plain; charset=utf-8\r\nContent-Length: 11\r\nConnection: close\r\n\r\nBad Request"

-- The bytes of a prepared response go to the write buffer, a file stays mapped.
unfoldable pub write_prepared : ℕ → PreparedResponse → Option MappedFile → Connection → Connection
write_prepared now r none c = append_write_data now (r.header ++ r.body) c
write_prepared now r (some f) c = set_mapped_write_data now r.header (contents f) c

abbrev pub routed_text : RoutedResponse → Bool → Bytes
routed_text r keep_alive = build_text r.status_code r.body keep_alive r.content_type

-- The branch of `processConnectionTask` for a request that parsed.
unfoldable pub answer : Outside → Bytes → ℕ → HttpRequest → Connection → Connection
answer o html_root now request c =
    let keep_alive = request.keep_alive in
    let prepared = prepare o.files request.path keep_alive html_root in
    set_close_after_write (not keep_alive) (
      if handles request
      then append_write_data now (routed_text (route o.users request) keep_alive) c
      else write_prepared now prepared prepared.file c)

abbrev pub respond_parsed : Outside → Bytes → ℕ → Bool × HttpRequest → Connection → Connection
respond_parsed o html_root now (true, request) c = answer o html_root now request c
respond_parsed o html_root now (false, request) c =
    set_close_after_write true (append_write_data now bad_request c)

-- One extracted request: parse it and set its response.
unfoldable pub respond : Outside → Bytes → ℕ → Bytes → Connection → Connection
respond o html_root now raw c = respond_parsed o html_root now (parse raw http_request) c

abbrev pub process_extracted : Outside → ℕ → ℕ → Connection × Option Bytes → HttpServer → HttpServer
process_extracted o now fd (c, none) s =
    rearm fd readable_once (put_connection fd (set_processing false c) s)
process_extracted o now fd (c, some raw) s =
    rearm fd writable_once
      (put_connection fd (finish_processing (respond o s.html_root now raw c)) s)

abbrev pub extract_open : Connection → Connection × Option Bytes
extract_open c = if c.closed then (c, none) else extract_one_request c

-- HttpServer::processConnectionTask; every round of its loop returns.
unfoldable pub process_connection_task : Outside → ℕ → ℕ → HttpServer → HttpServer
process_connection_task o now fd s = elim (s.connections fd) [
  | none ↦ s
  | some c ↦ process_extracted o now fd (extract_open c) s
]
