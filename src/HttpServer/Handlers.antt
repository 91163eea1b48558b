-- ===== src/HttpServer/Handlers.antt =====
-- `HttpServer::handleRead`, `handleWrite` and `closeIdleConnections`. What `read` and `writev` return
-- is an argument.
use mini_server.Prelude.{
  ℕ, zero, suc, ◌+◌, ◌-◌, Bool, false, not, ◌||◌, Option, none, some, List, [], ◌∷◌, ◌++◌, drop,
  if◌then◌else◌, length, ltb, take, ◌==◌,
}
use mini_server.Bytes.{Bytes}
use mini_server.Connection.{
  Connection, append_read_data, has_write_data, file_size, consume_write_data, clear_write_data,
  set_write_ready, has_pending_read,
}
use mini_server.TimerHeap.{pop_expired}
use mini_server.Epoller.{readable_once, writable_once}
use mini_server.HttpServer.{
  HttpServer, Outside, put_connection, rearm, renew_timer, close_connection, finish_processing,
  process_connection_task,
}

-- The end of a run of `read` calls: 0, EAGAIN or EWOULDBLOCK, another error.
pub data ReadEnd : Type 0 where
  end_of_file : ReadEnd
  no_more_yet : ReadEnd
  read_failed : ReadEnd

-- The calls of one `handleRead`: the bytes of those that return some, and the last one.
pub record ReadRun : Type 0 where
  pub chunks : List Bytes
  pub last : ReadEnd

unfoldable pub append_chunks : ℕ → List Bytes → Connection → Connection
append_chunks now [] c = c
append_chunks now (b ∷ bs) c =
    append_chunks now bs (if c.closed then c else append_read_data now b c)

abbrev pub after_reads : Outside → ℕ → ℕ → ReadEnd → HttpServer → HttpServer
after_reads o now fd end_of_file s = close_connection fd s
after_reads o now fd read_failed s = close_connection fd s
after_reads o now fd no_more_yet s = process_connection_task o now fd (renew_timer now fd s)

-- HttpServer::handleRead as one step. Threads has its stretches apart: there the sweep can close the
-- connection between the reads and `addOrUpdate`, which then leaves a timer without a connection.
unfoldable pub handle_read : Outside → ℕ → ReadRun → ℕ → HttpServer → HttpServer
handle_read o now run fd s = elim (s.connections fd) [
  | none ↦ s
  | some c ↦ after_reads o now fd run.last (put_connection fd (append_chunks now run.chunks c) s)
]

-- What `writev` returns: a count, EAGAIN or EWOULDBLOCK, another error.
pub data WriteAnswer : Type 0 where
  returned : ℕ → WriteAnswer
  would_block : WriteAnswer
  write_failed : WriteAnswer

pub data WriteEnd : Type 0 where
  drained : WriteEnd
  waits : WriteEnd
  broken : WriteEnd

-- How the loop of `handleWrite` ends, and the bytes that the kernel took.
pub record Written : Type 0 where
  pub result : WriteEnd
  pub conn : Connection
  pub bytes : Bytes

-- The two entries of `iov`, each only if it has a byte.
abbrev pub header_part : Connection → List Bytes
header_part c =
    if ltb c.write_offset (length c.write_buf) then drop c.write_offset c.write_buf ∷ [] else []

abbrev pub file_part : Option Bytes → ℕ → List Bytes
file_part none offset = []
file_part (some f) offset = if ltb offset (length f) then drop offset f ∷ [] else []

abbrev pub concat : List Bytes → Bytes
concat [] = []
concat (b ∷ bs) = b ++ concat bs

unfoldable pub iov : Connection → List Bytes
iov c = header_part c ++ file_part c.mapped_file c.file_offset

abbrev pub sent_first : Bytes → Written → Written
sent_first bytes w = record w { bytes = bytes ++ w.bytes }

-- The test that leaves the loop.
unfoldable pub is_done : Connection → Bool
is_done c = c.closed || not (has_write_data c)

-- The loop of `handleWrite`; the k-th call of `writev` returns `answers k`, the fuel bounds the calls.
unfoldable pub write_loop : ℕ → (ℕ → WriteAnswer) → ℕ → Connection → Written
write_loop zero answers k c = record { result = drained; conn = c; bytes = [] }
write_loop (suc fuel) answers k c =
    let next : Written = elim (answers k) [
      | returned n ↦
          let rest = write_loop fuel answers (k + 1) (consume_write_data n c) in
          if n == 0
          then record { result = broken; conn = c; bytes = [] }
          else sent_first (take n (concat (iov c))) rest
      | would_block ↦ record { result = waits; conn = c; bytes = [] }
      | write_failed ↦ record { result = broken; conn = c; bytes = [] }
    ] in
    if is_done c then record { result = drained; conn = c; bytes = [] } else next

-- One more than the bytes that are left to send.
unfoldable pub write_fuel : Connection → ℕ
write_fuel c =
    suc ((length c.write_buf - c.write_offset) + (file_size c.mapped_file - c.file_offset))

unfoldable pub written : (ℕ → WriteAnswer) → Connection → Written
written answers c = write_loop (write_fuel c) answers 0 c

-- The end of `handleWrite`, behind the loop.
unfoldable pub after_drained : Outside → ℕ → ℕ → Connection → HttpServer → HttpServer
after_drained o now fd c s =
    let cleared = set_write_ready false (clear_write_data c) in
    let stored = put_connection fd cleared s in
    let renewed = renew_timer now fd stored in
    if c.close_after_write
    then close_connection fd stored
    else if has_pending_read c
    then process_connection_task o now fd renewed
    else rearm fd readable_once (put_connection fd (finish_processing cleared) renewed)

unfoldable pub after_writes : Outside → ℕ → ℕ → WriteEnd → Connection → HttpServer → HttpServer
after_writes o now fd drained c s = after_drained o now fd c s
after_writes o now fd waits c s = rearm fd writable_once (put_connection fd (finish_processing c) s)
after_writes o now fd broken c s = close_connection fd s

-- HttpServer::handleWrite
unfoldable pub handle_write : Outside → ℕ → (ℕ → WriteAnswer) → ℕ → HttpServer → HttpServer
handle_write o now answers fd s = elim (s.connections fd) [
  | none ↦ s
  | some c ↦ let w = written answers c in after_writes o now fd w.result w.conn s
]

unfoldable pub close_all : List ℕ → HttpServer → HttpServer
close_all [] s = s
close_all (fd ∷ fds) s = close_all fds (close_connection fd s)

-- HttpServer::closeIdleConnections
unfoldable pub close_idle_connections : ℕ → HttpServer → HttpServer
close_idle_connections now s =
    let swept = pop_expired now s.timers in
    close_all swept.expired (record s { timers = swept.timers })
