-- ===== src/HttpServer/Phases/Running.antt =====
-- A worker's run of `handleRead`, and the phase of its descriptor behind it.
use mini_server.Prelude.{
  ℕ, ◌≡◌, refl, ◌≢◌, inl, inr, Bool, true, false, none, some, List, [], ◌∷◌, Option-cases,
  if◌then◌else◌,
}
use mini_server.Bytes.{Bytes}
use mini_server.Connection.{Connection, append_read_data, clear_write_data, set_write_ready}
use mini_server.Connection.Sending.{remaining}
use mini_server.HttpServer.{
  HttpServer, Outside, put_connection, renew_timer, close_connection, process_connection_task,
}
use mini_server.HttpServer.Handlers.{
  ReadRun, ReadEnd, end_of_file, no_more_yet, read_failed, append_chunks, after_reads, handle_read,
}
use mini_server.HttpServer.Phases.{
  InPhase, SameAt, SameAt-refl, SameAt-trans, set_at_self, set_at_ne,
}
use mini_server.HttpServer.Phases.Closing.{close-InPhase, close-SameAt}
use mini_server.HttpServer.Phases.Processing.{IsHeld, process-InPhase, process-SameAt}

-- Open, with nothing to send.
abbrev IsQuiet : Connection → Type 0
IsQuiet c = (c.closed ≡ false) × (remaining c ≡ [])

read-IsQuiet :
    (now : ℕ) (b : Bytes) (c : Connection) (shut : Bool)
    → IsQuiet c
    → IsQuiet (if shut then c else append_read_data now b c)
unfolding append_read_data remaining
read-IsQuiet now b c true q = q
read-IsQuiet now b c false q = q

pub append_chunks-IsQuiet :
    (now : ℕ) (bs : List Bytes) (c : Connection) → IsQuiet c → IsQuiet (append_chunks now bs c)
unfolding append_chunks
append_chunks-IsQuiet now [] c q = q
append_chunks-IsQuiet now (b ∷ bs) c q =
    append_chunks-IsQuiet now bs (if c.closed then c else append_read_data now b c)
      (read-IsQuiet now b c c.closed q)

pub cleared-IsQuiet :
    (c : Connection) → c.closed ≡ false → IsQuiet (set_write_ready false (clear_write_data c))
unfolding clear_write_data remaining
cleared-IsQuiet c h = (h, refl)

module _ (o : Outside) (now fd : ℕ) (s : HttpServer) where
  put-SameAt : (c : Connection) (j : ℕ) → fd ≢ j → SameAt s (put_connection fd c s) j
  put-SameAt c j n = record {
    conn = set_at_ne fd (some c) s.connections j n;
    armed = refl;
    reading = refl;
    writing = refl;
  }

  pub put-IsHeld :
      (c : Connection) → IsHeld s fd → IsHeld (renew_timer now fd (put_connection fd c s)) fd
  put-IsHeld c h = record { unarmed = h.unarmed; no_reads = h.no_reads; no_writes = h.no_writes }

  pub renewed-SameAt :
      (c : Connection) (j : ℕ) → fd ≢ j → SameAt s (renew_timer now fd (put_connection fd c s)) j
  renewed-SameAt c j n = record {
    conn = set_at_ne fd (some c) s.connections j n;
    armed = refl;
    reading = refl;
    writing = refl;
  }

  pub processed-SameAt :
      (c : Connection) (j : ℕ)
      → fd ≢ j
      → SameAt s (process_connection_task o now fd (renew_timer now fd (put_connection fd c s))) j
  processed-SameAt c j n =
      SameAt-trans s _ _ j (renewed-SameAt c j n)
        (process-SameAt o now fd (renew_timer now fd (put_connection fd c s)) j n)

  pub closed-SameAt :
      (c : Connection) (j : ℕ) → fd ≢ j → SameAt s (close_connection fd (put_connection fd c s)) j
  closed-SameAt c j n =
      SameAt-trans s _ _ j (put-SameAt c j n) (close-SameAt fd (put_connection fd c s) j n)

  pub closed-InPhase : (c : Connection) → InPhase (close_connection fd (put_connection fd c s)) fd
  closed-InPhase c =
      close-InPhase fd (put_connection fd c s) c (set_at_self fd (some c) s.connections)

  pub processed-InPhase :
      (c : Connection)
      → IsHeld s fd
      → IsQuiet c
      → InPhase (process_connection_task o now fd (renew_timer now fd (put_connection fd c s))) fd
  processed-InPhase c h q =
      process-InPhase o now fd (renew_timer now fd (put_connection fd c s)) c
        (set_at_self fd (some c) s.connections) (put-IsHeld c h) q.0 q.1

  after_reads-SameAt :
      (e : ReadEnd) (c : Connection) (j : ℕ)
      → fd ≢ j
      → SameAt s (after_reads o now fd e (put_connection fd c s)) j
  after_reads-SameAt end_of_file c j n = closed-SameAt c j n
  after_reads-SameAt read_failed c j n = closed-SameAt c j n
  after_reads-SameAt no_more_yet c j n = processed-SameAt c j n

  after_reads-InPhase :
      (e : ReadEnd) (c : Connection)
      → IsHeld s fd
      → IsQuiet c
      → InPhase (after_reads o now fd e (put_connection fd c s)) fd
  after_reads-InPhase end_of_file c h q = closed-InPhase c
  after_reads-InPhase read_failed c h q = closed-InPhase c
  after_reads-InPhase no_more_yet c h q = processed-InPhase c h q

  pub handle_read-none : (run : ReadRun) → s.connections fd ≡ none → handle_read o now run fd s ≡ s
  unfolding handle_read
  handle_read-none run h = rw (h, handle_read) refl

  pub handle_read-some :
      (run : ReadRun) (c : Connection)
      → s.connections fd ≡ some c
      → handle_read o now run fd s
        ≡ after_reads o now fd run.last (put_connection fd (append_chunks now run.chunks c) s)
  unfolding handle_read
  handle_read-some run c h = rw (h, handle_read) refl

  pub handle_read-SameAt :
      (run : ReadRun) (j : ℕ) → fd ≢ j → SameAt s (handle_read o now run fd s) j
  handle_read-SameAt run j n = elim (Option-cases (s.connections fd)) [
    | inl gone ↦ rw (handle_read-none run gone) (SameAt-refl s j)
    | inr (c, at) ↦
        rw (handle_read-some run c at)
          (after_reads-SameAt run.last (append_chunks now run.chunks c) j n)
  ]

  pub handle_read-InPhase :
      (run : ReadRun) (c : Connection)
      → s.connections fd ≡ some c
      → IsHeld s fd
      → c.closed ≡ false
      → remaining c ≡ []
      → InPhase (handle_read o now run fd s) fd
  handle_read-InPhase run c at h open_now e = rw (handle_read-some run c at) (
      after_reads-InPhase run.last (append_chunks now run.chunks c) h
        (append_chunks-IsQuiet now run.chunks c (open_now, e)))
