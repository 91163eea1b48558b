-- ===== src/HttpServer/Phases/Reaching.antt =====
-- The phases in the reachable states.
use mini_server.HttpServer.Phases.Events.{
  Phase-at, on_hang_up-AllInPhase, on_readable-AllInPhase, on_writable-AllInPhase,
  accept-AllInPhase,
}
use mini_server.Prelude.{
  ℕ, ◌+◌, ◌≡◌, refl, ap, ◌∙◌, inl, inr, none, some, List, [], ◌∷◌, arith, ==-refl, Option-cases,
  ne→==, sum,
}
use mini_server.Bytes.{Bytes}
use mini_server.TimerHeap.{pop_expired}
use mini_server.HttpServer.{HttpServer, Outside, Task, reads, writes}
use mini_server.HttpServer.Handlers.{
  ReadRun, WriteAnswer, handle_read, handle_write, close_idle_connections,
}
use mini_server.HttpServer.Steps.{
  Event, accepts, hangs_up, is_readable, is_writable, works, sweeps, run_first, step, http_server,
  read_tasks, write_tasks, IsFair, ReusesNone, ReusesNoneAt, Reaches, starts, steps,
}
use mini_server.HttpServer.Phases.{InPhase, AllInPhase, SameAt, SameAt-trans, one-AllInPhase}
use mini_server.HttpServer.Phases.Closing.{close_all-AllInPhase}
use mini_server.HttpServer.Phases.Running.{
  handle_read-none, handle_read-SameAt, handle_read-InPhase,
}
use mini_server.HttpServer.Phases.Writing.{
  handle_write-none, handle_write-SameAt, handle_write-InPhase,
}
use mini_server.HttpServer.Phases.Dispatching.{held_read, held_write, Phase-none}

-- A worker takes the first task.
module _ (o : Outside) (now : ℕ) (run : ReadRun) (answers : ℕ → WriteAnswer) (s : HttpServer)
    (p : AllInPhase s) (ts : List Task) where
  abbrev taken : HttpServer
  taken = record s { tasks = ts }

  taken-SameAt :
      (t : Task) (j : ℕ)
      → s.tasks ≡ t ∷ ts
      → read_tasks j t ≡ 0
      → write_tasks j t ≡ 0
      → SameAt s taken j
  taken-SameAt t j e r w = record {
    conn = refl;
    armed = refl;
    reading = omega (arith, ap (sum (read_tasks j)) e);
    writing = omega (arith, ap (sum (write_tasks j)) e);
  }

  stale-InPhase : (k : ℕ) → s.connections k ≡ none → InPhase taken k
  stale-InPhase k gone =
      rw gone (Phase-none (s.interest k) _ _ _ _ (Phase-at k s p none (s.interest k) gone refl))

  -- The taken task counts one for its own kind, none for the other.
  counts_read :
      (k : ℕ)
      → s.tasks ≡ reads k ∷ ts
      → (sum (read_tasks k) s.tasks ≡ 1 + sum (read_tasks k) ts)
        × (sum (write_tasks k) s.tasks ≡ sum (write_tasks k) ts)
  counts_read k e =
      (ap (sum (read_tasks k)) e ∙ rw (==-refl k) refl, ap (sum (write_tasks k)) e ∙ omega arith)

  counts_write :
      (k : ℕ)
      → s.tasks ≡ writes k ∷ ts
      → (sum (write_tasks k) s.tasks ≡ 1 + sum (write_tasks k) ts)
        × (sum (read_tasks k) s.tasks ≡ sum (read_tasks k) ts)
  counts_write k e =
      (ap (sum (write_tasks k)) e ∙ rw (==-refl k) refl, ap (sum (read_tasks k)) e ∙ omega arith)

  run_reads-AllInPhase :
      (k : ℕ) → s.tasks ≡ reads k ∷ ts → AllInPhase (handle_read o now run k taken)
  run_reads-AllInPhase k e =
      one-AllInPhase s (handle_read o now run k taken) k p
        (λ j n.
          SameAt-trans s taken _ j (taken-SameAt (reads k) j e (rw (ne→== k j n) refl) refl)
            (handle_read-SameAt o now k taken run j n))
        (elim (Option-cases (s.connections k)) [
          | inl gone ↦ rw (handle_read-none o now k taken run gone) (stale-InPhase k gone)
          | inr (c, at) ↦
              let (one, other) = counts_read k e in
              let (un, open_now, r, w, quiet) =
                held_read c (s.interest k) _ _ (Phase-at k s p (some c) (s.interest k) at refl)
                  (omega arith) in
              handle_read-InPhase o now k taken run c at
                (record { unarmed = un; no_reads = omega arith; no_writes = omega arith }) open_now
                quiet
        ])

  run_writes-AllInPhase :
      (k : ℕ) → s.tasks ≡ writes k ∷ ts → AllInPhase (handle_write o now answers k taken)
  run_writes-AllInPhase k e =
      one-AllInPhase s (handle_write o now answers k taken) k p
        (λ j n.
          SameAt-trans s taken _ j (taken-SameAt (writes k) j e refl (rw (ne→== k j n) refl))
            (handle_write-SameAt o now k taken answers j n))
        (elim (Option-cases (s.connections k)) [
          | inl gone ↦ rw (handle_write-none o now k taken answers gone) (stale-InPhase k gone)
          | inr (c, at) ↦
              let (one, other) = counts_write k e in
              let (un, open_now, r, w, sending) =
                held_write c (s.interest k) _ _ (Phase-at k s p (some c) (s.interest k) at refl)
                  (omega arith) in
              handle_write-InPhase o now k taken answers c at
                (record { unarmed = un; no_reads = omega arith; no_writes = omega arith }) open_now
                sending
        ])

run_first-AllInPhase :
    (o : Outside) (now : ℕ) (run : ReadRun) (answers : ℕ → WriteAnswer) (s : HttpServer)
    (ts : List Task)
    → AllInPhase s
    → s.tasks ≡ ts
    → AllInPhase (run_first o now run answers ts s)
run_first-AllInPhase o now run answers s [] p e = p
run_first-AllInPhase o now run answers s (reads k ∷ ts) p e =
    run_reads-AllInPhase o now run answers s p ts k e
run_first-AllInPhase o now run answers s (writes k ∷ ts) p e =
    run_writes-AllInPhase o now run answers s p ts k e

-- One fair event keeps every descriptor in phase.
step-AllInPhase :
    (o : Outside) (now : ℕ) (s : HttpServer) (e : Event)
    → AllInPhase s
    → IsFair s e
    → ReusesNoneAt s e
    → AllInPhase (step o now s e)
unfolding step close_idle_connections
step-AllInPhase o now s (accepts fd ip added) p (gone, free) (r, w) =
    accept-AllInPhase fd s p added now ip free r w
step-AllInPhase o now s (hangs_up fd) p f n = on_hang_up-AllInPhase fd s p (s.interest fd) refl
step-AllInPhase o now s (is_readable fd) p f n = on_readable-AllInPhase fd s p (s.interest fd) refl
step-AllInPhase o now s (is_writable fd) p f n = on_writable-AllInPhase fd s p (s.interest fd) refl
step-AllInPhase o now s (works run answers) p f n =
    run_first-AllInPhase o now run answers s s.tasks p refl
step-AllInPhase o now s sweeps p f n =
    let swept = pop_expired now s.timers in
    close_all-AllInPhase swept.expired (record s { timers = swept.timers }) p

-- In every state that the server reaches, each handler taken as one step, if no descriptor that a task is left
-- for is accepted again: each descriptor is in one of five phases. It has no connection and is not registered;
-- or it has an open one and is not registered, its EPOLL_CTL_ADD having failed, not being processed, with no
-- task and nothing left to send; or armed for reading, not being processed, with no task and nothing left to
-- send; or armed for writing, not being processed, with no task and its offsets in range; or disarmed and
-- being processed, with exactly one task, which reads with nothing left to send, or writes with its offsets in
-- range.
pub Reaches-AllInPhase :
    (idle_timeout : ℕ) (root : Bytes) (s : HttpServer)
    (r : Reaches (http_server idle_timeout root) s)
    → ReusesNone r
    → AllInPhase s
Reaches-AllInPhase idle_timeout root s starts n = λ fd. tt
Reaches-AllInPhase idle_timeout root s (steps {s = u} o now e r f) n =
    step-AllInPhase o now u e (Reaches-AllInPhase idle_timeout root u r n.1) f n.0
