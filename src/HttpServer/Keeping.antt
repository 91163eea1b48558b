-- ===== src/HttpServer/Keeping.antt =====
-- The handlers of http_server.cpp: the tasks and the root of the files behind them.
use mini_server.Prelude.{
  ℕ, ◌≡◌, refl, ◌∙◌, inl, inr, false, Option, none, some, List, [], ◌∷◌, Option-cases, if_either,
}
use mini_server.Bytes.{Bytes}
use mini_server.Connection.{Connection, has_pending_read, clear_write_data, set_write_ready}
use mini_server.HttpServer.{
  HttpServer, Outside, Task, reads, writes, close_connection, process_connection_task,
  process_extracted, extract_open, put_connection, renew_timer, dispatch, dispatch_begun,
  begin_processing, accept_one,
}
use mini_server.Epoller.{Interest, absent, disarmed, readable_once, writable_once}
use mini_server.TimerHeap.{pop_expired}
use mini_server.HttpServer.Handlers.{
  close_all, close_idle_connections, ReadRun, ReadEnd, end_of_file, no_more_yet, read_failed,
  WriteAnswer, WriteEnd, drained, waits, broken, after_reads, handle_read, append_chunks,
  after_drained, after_writes, handle_write, written,
}
use mini_server.HttpServer.Steps.{
  run_first, disarm, on_hang_up, on_readable, on_writable, step, Event, accepts, hangs_up,
  is_readable, is_writable, works, sweeps, Reaches, starts, steps,
}

abbrev pub IsKept : HttpServer → HttpServer → Type 0
IsKept s t = (t.tasks ≡ s.tasks) × (t.html_root ≡ s.html_root)

pub close_connection-IsKept : (fd : ℕ) (s : HttpServer) → IsKept s (close_connection fd s)
unfolding close_connection
close_connection-IsKept fd s = elim (Option-cases (s.connections fd)) [
  | inl gone ↦ rw (gone, close_connection) (refl, refl)
  | inr (c, at) ↦ rw (at, close_connection) (refl, refl)
]

module _ (o : Outside) (now fd : ℕ) where
  extracted-IsKept :
      (p : Connection × Option Bytes) (s : HttpServer) → IsKept s (process_extracted o now fd p s)
  extracted-IsKept (c, none) s = (refl, refl)
  extracted-IsKept (c, some raw) s = (refl, refl)

  process-IsKept : (s : HttpServer) → IsKept s (process_connection_task o now fd s)
  unfolding process_connection_task
  process-IsKept s = elim (Option-cases (s.connections fd)) [
    | inl gone ↦ rw (gone, process_connection_task) (refl, refl)
    | inr (c, at) ↦ rw (at, process_connection_task) (extracted-IsKept (extract_open c) s)
  ]

  after_reads-IsKept : (e : ReadEnd) (s : HttpServer) → IsKept s (after_reads o now fd e s)
  after_reads-IsKept end_of_file s = close_connection-IsKept fd s
  after_reads-IsKept read_failed s = close_connection-IsKept fd s
  after_reads-IsKept no_more_yet s = process-IsKept (renew_timer now fd s)

  handle_read-IsKept : (run : ReadRun) (s : HttpServer) → IsKept s (handle_read o now run fd s)
  unfolding handle_read
  handle_read-IsKept run s = elim (Option-cases (s.connections fd)) [
    | inl gone ↦ rw (gone, handle_read) (refl, refl)
    | inr (c, at) ↦
        rw (at, handle_read)
          (after_reads-IsKept run.last (put_connection fd (append_chunks now run.chunks c) s))
  ]

  after_drained-IsKept : (c : Connection) (s : HttpServer) → IsKept s (after_drained o now fd c s)
  unfolding after_drained
  after_drained-IsKept c s =
      let stored = put_connection fd (set_write_ready false (clear_write_data c)) s in
      if_either (λ (t : HttpServer). IsKept s t) c.close_after_write _ _
        (close_connection-IsKept fd stored)
        (if_either (λ (t : HttpServer). IsKept s t) (has_pending_read c) _ _
          (process-IsKept (renew_timer now fd stored)) (refl, refl))

  after_writes-IsKept :
      (e : WriteEnd) (c : Connection) (s : HttpServer) → IsKept s (after_writes o now fd e c s)
  unfolding after_writes
  after_writes-IsKept drained c s = after_drained-IsKept c s
  after_writes-IsKept waits c s = (refl, refl)
  after_writes-IsKept broken c s = close_connection-IsKept fd s

  handle_write-IsKept :
      (answers : ℕ → WriteAnswer) (s : HttpServer) → IsKept s (handle_write o now answers fd s)
  unfolding handle_write
  handle_write-IsKept answers s = elim (Option-cases (s.connections fd)) [
    | inl gone ↦ rw (gone, handle_write) (refl, refl)
    | inr (c, at) ↦
        let w = written answers c in rw (at, handle_write) (after_writes-IsKept w.result w.conn s)
  ]

-- A worker takes the first task and adds none.
pub run_first-IsKept :
    (o : Outside) (now : ℕ) (run : ReadRun) (answers : ℕ → WriteAnswer) (t : Task) (ts : List Task)
    (s : HttpServer)
    → ((run_first o now run answers (t ∷ ts) s).tasks ≡ ts)
      × ((run_first o now run answers (t ∷ ts) s).html_root ≡ s.html_root)
run_first-IsKept o now run answers (reads fd) ts s =
    handle_read-IsKept o now fd run (record s { tasks = ts })
run_first-IsKept o now run answers (writes fd) ts s =
    handle_write-IsKept o now fd answers (record s { tasks = ts })

-- No event changes the root.
close_all-root : (fds : List ℕ) (s : HttpServer) → (close_all fds s).html_root ≡ s.html_root
unfolding close_all
close_all-root [] s = refl
close_all-root (fd ∷ fds) s =
    close_all-root fds (close_connection fd s) ∙ (close_connection-IsKept fd s).1

dispatch-root : (fd : ℕ) (t : Task) (s : HttpServer) → (dispatch fd t s).html_root ≡ s.html_root
unfolding dispatch
dispatch-root fd t s = elim (Option-cases (s.connections fd)) [
  | inl gone ↦ rw (gone, dispatch) refl
  | inr (c, at) ↦ rw (at, dispatch) (begun-root (begin_processing c))
]
  where
    begun-root : (b : Option Connection) → (dispatch_begun fd t b s).html_root ≡ s.html_root
    begun-root none = refl
    begun-root (some c) = refl

hang_up-root :
    (fd : ℕ) (s : HttpServer) (i : Interest) → (on_hang_up i fd s).html_root ≡ s.html_root
hang_up-root fd s absent = refl
hang_up-root fd s disarmed = refl
hang_up-root fd s readable_once = (close_connection-IsKept fd (disarm fd s)).1
hang_up-root fd s writable_once = (close_connection-IsKept fd (disarm fd s)).1

readable-root :
    (fd : ℕ) (s : HttpServer) (i : Interest) → (on_readable i fd s).html_root ≡ s.html_root
readable-root fd s absent = refl
readable-root fd s disarmed = refl
readable-root fd s readable_once = dispatch-root fd (reads fd) (disarm fd s)
readable-root fd s writable_once = refl

writable-root :
    (fd : ℕ) (s : HttpServer) (i : Interest) → (on_writable i fd s).html_root ≡ s.html_root
writable-root fd s absent = refl
writable-root fd s disarmed = refl
writable-root fd s readable_once = refl
writable-root fd s writable_once = dispatch-root fd (writes fd) (disarm fd s)

run_first-root :
    (o : Outside) (now : ℕ) (run : ReadRun) (answers : ℕ → WriteAnswer) (ts : List Task)
    (s : HttpServer)
    → (run_first o now run answers ts s).html_root ≡ s.html_root
run_first-root o now run answers [] s = refl
run_first-root o now run answers (t ∷ ts) s = (run_first-IsKept o now run answers t ts s).1

step-root :
    (o : Outside) (now : ℕ) (s : HttpServer) (e : Event) → (step o now s e).html_root ≡ s.html_root
unfolding step accept_one close_idle_connections
step-root o now s (accepts fd ip added) = refl
step-root o now s (hangs_up fd) = hang_up-root fd s (s.interest fd)
step-root o now s (is_readable fd) = readable-root fd s (s.interest fd)
step-root o now s (is_writable fd) = writable-root fd s (s.interest fd)
step-root o now s (works run answers) = run_first-root o now run answers s.tasks s
step-root o now s sweeps =
    let swept = pop_expired now s.timers in
    close_all-root swept.expired (record s { timers = swept.timers })

pub Reaches-root : (start s : HttpServer) → Reaches start s → s.html_root ≡ start.html_root
Reaches-root start s starts = refl
Reaches-root start s (steps o now e r f) = step-root o now _ e ∙ Reaches-root start _ r
