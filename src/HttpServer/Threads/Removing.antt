-- ===== src/HttpServer/Threads/Removing.antt =====
-- closeConnection of http_server.cpp, which the loop and a worker may call for one connection at once: the
-- worker that takes a descriptor out of the table.
pub mod Apart
use mini_server.Prelude.{
  ℕ, ◌≡◌, refl, ◌⊎◌, inl, inr, Bool, true, false, not, Option, none, some, List, [], ◌∷◌,
  Bool-cases, if_either, some_eq, ◌==◌,
}
use mini_server.Bytes.{Bytes}
use mini_server.Connection.{Connection}
use mini_server.HttpServer.{Outside, Task, reads, writes, extract_open}
use mini_server.HttpServer.Handlers.{WriteAnswer, returned, would_block, write_failed, is_done}
use mini_server.HttpServer.Threads.{
  Stage, getting_to_read, reading, renewing, getting_to_process, extracting, answering, answered,
  getting_to_write, testing, sending, consuming, blocked, clearing, settled, finishing, arming,
  closing, marking, deleting, shutting, Worker, idle, at, Shared, Answer, ReadAnswer, chunk,
  no_more, ended, goes_on, on_read, on_extracted, on_write, take_task, work_at, work,
}
use mini_server.HttpServer.Threads.System.{removing_at, worker_at}
use mini_server.HttpServer.Threads.Attended.{WorkerFits}

pub removing-worker_at : (p : Worker) (k : ℕ) → removing_at p ≡ some k → worker_at p ≡ some k
removing-worker_at idle k e = cc e
removing-worker_at (at fd marking) k e = e
removing-worker_at (at fd deleting) k e = e
removing-worker_at (at fd shutting) k e = e
removing-worker_at (at fd getting_to_read) k e = cc e
removing-worker_at (at fd reading) k e = cc e
removing-worker_at (at fd renewing) k e = cc e
removing-worker_at (at fd getting_to_process) k e = cc e
removing-worker_at (at fd extracting) k e = cc e
removing-worker_at (at fd (answering raw)) k e = cc e
removing-worker_at (at fd answered) k e = cc e
removing-worker_at (at fd getting_to_write) k e = cc e
removing-worker_at (at fd testing) k e = cc e
removing-worker_at (at fd sending) k e = cc e
removing-worker_at (at fd (consuming n)) k e = cc e
removing-worker_at (at fd blocked) k e = cc e
removing-worker_at (at fd clearing) k e = cc e
removing-worker_at (at fd (settled closes pending)) k e = cc e
removing-worker_at (at fd finishing) k e = cc e
removing-worker_at (at fd (arming wanted)) k e = cc e
removing-worker_at (at fd closing) k e = cc e

pub removing-out :
    (p : Worker) (table : ℕ → Bool) (k : ℕ)
    → WorkerFits p table
    → removing_at p ≡ some k
    → table k ≡ false
removing-out idle table k fit e = cc e
removing-out (at fd getting_to_read) table k fit e = cc e
removing-out (at fd reading) table k fit e = cc e
removing-out (at fd renewing) table k fit e = cc e
removing-out (at fd getting_to_process) table k fit e = cc e
removing-out (at fd extracting) table k fit e = cc e
removing-out (at fd (answering raw)) table k fit e = cc e
removing-out (at fd answered) table k fit e = cc e
removing-out (at fd getting_to_write) table k fit e = cc e
removing-out (at fd testing) table k fit e = cc e
removing-out (at fd sending) table k fit e = cc e
removing-out (at fd (consuming n)) table k fit e = cc e
removing-out (at fd blocked) table k fit e = cc e
removing-out (at fd clearing) table k fit e = cc e
removing-out (at fd (settled closes pending)) table k fit e = cc e
removing-out (at fd finishing) table k fit e = cc e
removing-out (at fd (arming wanted)) table k fit e = cc e
removing-out (at fd closing) table k fit e = cc e
removing-out (at fd marking) table k fit e = rw (← some_eq e) fit
removing-out (at fd deleting) table k fit e = rw (← some_eq e) fit
removing-out (at fd shutting) table k fit e = rw (← some_eq e) fit

-- A worker comes to take a descriptor out only from the table.
abbrev pub Comes : Worker → Worker → (ℕ → Bool) → Type 0
Comes p q table = (k : ℕ) → removing_at q ≡ some k → (removing_at p ≡ some k) ⊎ (table k ≡ true)

module _ (o : Outside) (a : Answer) (fd : ℕ) (s : Shared) where
  goes-Comes :
      (p : Worker) (b : Bool) (stage : Stage)
      → removing_at (at fd stage) ≡ none
      → Comes p (goes_on b fd stage) s.table
  goes-Comes p true stage n k e = cc (n, e)
  goes-Comes p false stage n k e = cc e

  on_read-Comes : (p : Worker) (r : ReadAnswer) → Comes p (on_read r a.now fd s).0 s.table
  on_read-Comes p (chunk b) k e = cc e
  on_read-Comes p no_more k e = cc e
  on_read-Comes p ended k e = cc e

  on_extracted-Comes :
      (p : Worker) (r : Connection × Option Bytes) → Comes p (on_extracted r fd s).0 s.table
  on_extracted-Comes p (c, none) k e = cc e
  on_extracted-Comes p (c, some raw) k e = cc e

  on_write-Comes : (p : Worker) (r : WriteAnswer) → Comes p (on_write r fd s).0 s.table
  on_write-Comes p (returned n) =
      if_either (λ stage. Comes p (at fd stage) s.table) (n == 0) closing (consuming n)
        (λ k e. cc e) (λ k e. cc e)
  on_write-Comes p would_block = λ k e. cc e
  on_write-Comes p write_failed = λ k e. cc e

  closing-Comes : (p : Worker) → Comes p (goes_on (s.table fd) fd marking) s.table
  closing-Comes p k = elim (Bool-cases (s.table fd)) [
    | inl there ↦ rw there (λ e. inr (rw (← some_eq e) there))
    | inr out ↦ rw out (λ e. cc e)
  ]

  work_at-Comes : (stage : Stage) → Comes (at fd stage) (work_at o a fd stage s).0 s.table
  unfolding work_at
  work_at-Comes getting_to_read = goes-Comes (at fd getting_to_read) (s.table fd) reading refl
  work_at-Comes reading = on_read-Comes (at fd reading) a.read
  work_at-Comes renewing = λ k e. cc e
  work_at-Comes getting_to_process =
      goes-Comes (at fd getting_to_process) (s.table fd) extracting refl
  work_at-Comes extracting = on_extracted-Comes (at fd extracting) (extract_open (s.objects fd))
  work_at-Comes (answering raw) =
      goes-Comes (at fd (answering raw)) (not (s.objects fd).closed) answered refl
  work_at-Comes answered = λ k e. cc e
  work_at-Comes getting_to_write = goes-Comes (at fd getting_to_write) (s.table fd) testing refl
  work_at-Comes testing =
      if_either (λ stage. Comes (at fd testing) (at fd stage) s.table) (is_done (s.objects fd))
        clearing sending (λ k e. cc e) (λ k e. cc e)
  work_at-Comes sending = on_write-Comes (at fd sending) a.write
  work_at-Comes (consuming n) = λ k e. cc e
  work_at-Comes blocked = λ k e. cc e
  work_at-Comes clearing = λ k e. cc e
  work_at-Comes (settled true pending) = λ k e. cc e
  work_at-Comes (settled false true) = λ k e. cc e
  work_at-Comes (settled false false) = λ k e. cc e
  work_at-Comes finishing = λ k e. cc e
  work_at-Comes (arming wanted) = λ k e. cc e
  work_at-Comes closing = closing-Comes (at fd closing)
  work_at-Comes marking = λ k e. inl e
  work_at-Comes deleting = λ k e. inl e
  work_at-Comes shutting = λ k e. cc e

  take-Comes : (ts : List Task) → Comes idle (take_task ts s).0 s.table
  take-Comes [] k e = cc e
  take-Comes (reads j ∷ ts) k e = cc e
  take-Comes (writes j ∷ ts) k e = cc e

pub work-Comes :
    (o : Outside) (a : Answer) (p : Worker) (s : Shared) → Comes p (work o a p s).0 s.table
unfolding work
work-Comes o a idle s = take-Comes o a 0 s s.tasks
work-Comes o a (at fd stage) s = work_at-Comes o a fd s stage
