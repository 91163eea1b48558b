-- ===== src/HttpServer/Threads.antt =====
-- The handlers of http_server.cpp in smaller steps: a step is one stretch of code under a mutex, or one
-- system call, and the steps of the loop and of the workers come in any order.
-- A worker at a descriptor has the connection that `getConnection` gave it, also when the loop has
-- closed it since. The connections are a function of the descriptor: when a descriptor is accepted again
-- while a worker is at the old connection, which the code then still has apart, the worker here meets the
-- new one, and what is proved leaves these runs out by a named condition. `table` says which descriptors are in the table. The logs are left out.
pub mod System
pub mod Ownership
pub mod Owned
pub mod Working
pub mod Local
pub mod Looping
pub mod Closing
pub mod Moving
pub mod Exclusion
pub mod Safety
pub mod Attended
pub mod Removing
pub mod Alone
pub mod Timed
use mini_server.Prelude.{
  ℕ, ◌+◌, Bool, false, not, Option, none, some, List, [], ◌∷◌, if◌then◌else◌, ◌==◌,
}
use mini_server.Bytes.{Bytes}
use mini_server.Connection.{
  Connection, mark_closed, append_read_data, consume_write_data, has_pending_read, set_processing,
}
use mini_server.Epoller.{Interest, readable_once, writable_once, set_at, epoll_mod, epoll_del}
use mini_server.TimerHeap.{TimerHeap, add_or_update, remove}
use mini_server.HttpServer.{Outside, Task, reads, writes, finish_processing, extract_open, respond}
use mini_server.HttpServer.Handlers.{WriteAnswer, returned, would_block, write_failed, is_done}
use mini_server.HttpServer.Phases.Writing.{cleared}

-- Where a worker stands at its descriptor: `handleRead`, `processConnectionTask`, `handleWrite`, and
-- `closeConnection`; `arming` is the call of `epoll_ctl` that ends a handler.
pub data Stage : Type 0 where
  getting_to_read : Stage
  reading : Stage
  renewing : Stage
  getting_to_process : Stage
  extracting : Stage
  answering : Bytes → Stage
  answered : Stage
  getting_to_write : Stage
  testing : Stage
  sending : Stage
  consuming : ℕ → Stage
  blocked : Stage
  clearing : Stage
  settled : Bool → Bool → Stage
  finishing : Stage
  arming : Interest → Stage
  closing : Stage
  marking : Stage
  deleting : Stage
  shutting : Stage

pub data Worker : Type 0 where
  idle : Worker
  at : ℕ → Stage → Worker

-- What the threads share.
pub record Shared : Type 0 where
  pub idle_timeout : ℕ
  pub html_root : Bytes
  pub objects : ℕ → Connection
  pub table : ℕ → Bool
  pub interest : ℕ → Interest
  pub timers : TimerHeap
  pub tasks : List Task

-- What a worker's next system call answers. `read` gives bytes, or EAGAIN or EWOULDBLOCK, or its end.
pub data ReadAnswer : Type 0 where
  chunk : Bytes → ReadAnswer
  no_more : ReadAnswer
  ended : ReadAnswer

pub record Answer : Type 0 where
  pub now : ℕ
  pub read : ReadAnswer
  pub write : WriteAnswer

abbrev pub set_object : ℕ → Connection → Shared → Shared
set_object fd c s = record s { objects = set_at fd c s.objects }

abbrev pub set_interest : ℕ → Interest → Shared → Shared
set_interest fd wanted s = record s { interest = epoll_mod fd wanted s.interest }

abbrev pub set_timer : ℕ → ℕ → Shared → Shared
set_timer now fd s = record s { timers = add_or_update fd (now + s.idle_timeout) s.timers }

abbrev pub forget : ℕ → Shared → Shared
forget fd s = record s { table = set_at fd false s.table; timers = remove fd s.timers }

abbrev pub unregister : ℕ → Shared → Shared
unregister fd s = record s { interest = epoll_del fd s.interest }

abbrev pub goes_on : Bool → ℕ → Stage → Worker
goes_on b fd stage = if b then at fd stage else idle

abbrev pub on_read : ReadAnswer → ℕ → ℕ → Shared → Worker × Shared
on_read (chunk b) now fd s =
    let c = s.objects fd in
    (at fd reading, set_object fd (if c.closed then c else append_read_data now b c) s)
on_read no_more now fd s = (at fd renewing, s)
on_read ended now fd s = (at fd closing, s)

-- Extracting, and arming for reading if there is nothing, is all under the connection's mutex.
abbrev pub on_extracted : Connection × Option Bytes → ℕ → Shared → Worker × Shared
on_extracted (c, none) fd s =
    (idle, set_interest fd readable_once (set_object fd (set_processing false c) s))
on_extracted (c, some raw) fd s = (at fd (answering raw), set_object fd c s)

abbrev pub on_write : WriteAnswer → ℕ → Shared → Worker × Shared
on_write (returned n) fd s = (at fd (if n == 0 then closing else consuming n), s)
on_write would_block fd s = (at fd blocked, s)
on_write write_failed fd s = (at fd closing, s)

-- One step of a worker at `fd`.
unfoldable pub work_at : Outside → Answer → ℕ → Stage → Shared → Worker × Shared
work_at o a fd getting_to_read s = (goes_on (s.table fd) fd reading, s)
work_at o a fd reading s = on_read a.read a.now fd s
work_at o a fd renewing s = (at fd getting_to_process, set_timer a.now fd s)
work_at o a fd getting_to_process s = (goes_on (s.table fd) fd extracting, s)
work_at o a fd extracting s = on_extracted (extract_open (s.objects fd)) fd s
work_at o a fd (answering raw) s =
    let c = s.objects fd in
    (
      goes_on (not c.closed) fd answered,
      set_object fd (if c.closed then c else respond o s.html_root a.now raw c) s,
    )
work_at o a fd answered s =
    (at fd (arming writable_once), set_object fd (finish_processing (s.objects fd)) s)
work_at o a fd getting_to_write s = (goes_on (s.table fd) fd testing, s)
work_at o a fd testing s = (at fd (if is_done (s.objects fd) then clearing else sending), s)
work_at o a fd sending s = on_write a.write fd s
work_at o a fd (consuming n) s =
    (at fd testing, set_object fd (consume_write_data n (s.objects fd)) s)
work_at o a fd blocked s =
    (at fd (arming writable_once), set_object fd (finish_processing (s.objects fd)) s)
work_at o a fd clearing s =
    let c = s.objects fd in
    (at fd (settled c.close_after_write (has_pending_read c)), set_object fd (cleared c) s)
work_at o a fd (settled closes pending) s = (
  at fd (if closes then closing else if pending then getting_to_process else finishing),
  if closes then s else set_timer a.now fd s,
)
work_at o a fd finishing s =
    (at fd (arming readable_once), set_object fd (finish_processing (s.objects fd)) s)
work_at o a fd (arming wanted) s = (idle, set_interest fd wanted s)
work_at o a fd closing s = (goes_on (s.table fd) fd marking, if s.table fd then forget fd s else s)
work_at o a fd marking s = (at fd deleting, set_object fd (mark_closed (s.objects fd)) s)
work_at o a fd deleting s = (at fd shutting, unregister fd s)
work_at o a fd shutting s = (idle, s)

-- A worker takes the first task.
abbrev pub begun : Task → Worker
begun (reads fd) = at fd getting_to_read
begun (writes fd) = at fd getting_to_write

abbrev pub take_task : List Task → Shared → Worker × Shared
take_task [] s = (idle, s)
take_task (t ∷ ts) s = (begun t, record s { tasks = ts })

unfoldable pub work : Outside → Answer → Worker → Shared → Worker × Shared
work o a idle s = take_task s.tasks s
work o a (at fd stage) s = work_at o a fd stage s
