-- ===== src/HttpServer/Phases/Writing.antt =====
-- A worker's run of `handleWrite`, and the phase of its descriptor behind it.
use mini_server.Prelude.{
  ℕ, ◌≡◌, refl, ◌∙◌, ◌≢◌, inl, inr, false, none, some, Option-cases, if_either, if◌then◌else◌,
}
use mini_server.Connection.{Connection, clear_write_data, set_write_ready, has_pending_read}
use mini_server.Connection.Sending.{IsSending}
use mini_server.Epoller.{readable_once, writable_once}
use mini_server.HttpServer.{
  HttpServer, Outside, put_connection, rearm, renew_timer, close_connection, finish_processing,
  process_connection_task,
}
use mini_server.HttpServer.Handlers.{
  WriteAnswer, WriteEnd, drained, waits, broken, written, after_drained, after_writes, handle_write,
}
use mini_server.HttpServer.Sending.{written-IsWritten}
use mini_server.HttpServer.Phases.{InPhase, SameAt, SameAt-refl, SameAt-trans}
use mini_server.HttpServer.Phases.Closing.{close-InPhase, close-SameAt}
use mini_server.HttpServer.Phases.Processing.{
  IsHeld, rested-SameAt, readable-InPhase, writable-InPhase, finish_processing-open,
}
use mini_server.HttpServer.Phases.Running.{
  cleared-IsQuiet, put-IsHeld, renewed-SameAt, processed-SameAt, closed-SameAt, closed-InPhase,
  processed-InPhase,
}

-- The connection once its response is sent.
abbrev pub cleared : Connection → Connection
cleared c = set_write_ready false (clear_write_data c)

module _ (o : Outside) (now fd : ℕ) (s : HttpServer) where
  abbrev pub renewed : Connection → HttpServer
  renewed c = renew_timer now fd (put_connection fd (cleared c) s)

  abbrev pub awaiting : Connection → HttpServer
  awaiting c =
      rearm fd readable_once (put_connection fd (finish_processing (cleared c)) (renewed c))

  abbrev pub going_on : Connection → HttpServer
  going_on c =
      if has_pending_read c then process_connection_task o now fd (renewed c) else awaiting c

  awaiting-SameAt : (c : Connection) (j : ℕ) → fd ≢ j → SameAt s (awaiting c) j
  awaiting-SameAt c j n =
      SameAt-trans s _ _ j (renewed-SameAt o now fd s (cleared c) j n)
        (rested-SameAt fd (renewed c) readable_once (finish_processing (cleared c)) j n)

  after_drained-SameAt : (c : Connection) (j : ℕ) → fd ≢ j → SameAt s (after_drained o now fd c s) j
  unfolding after_drained
  after_drained-SameAt c j n =
      if_either (λ t. SameAt s t j) c.close_after_write
        (close_connection fd (put_connection fd (cleared c) s)) (going_on c)
        (closed-SameAt o now fd s (cleared c) j n)
        (if_either (λ t. SameAt s t j) (has_pending_read c)
          (process_connection_task o now fd (renewed c)) (awaiting c)
          (processed-SameAt o now fd s (cleared c) j n) (awaiting-SameAt c j n))

  awaiting-InPhase : (c : Connection) → IsHeld s fd → c.closed ≡ false → InPhase (awaiting c) fd
  awaiting-InPhase c h open_now =
      let (o', quiet) = cleared-IsQuiet c open_now in
      rw (finish_processing-open (cleared c) o')
        (readable-InPhase fd (renewed c) (put-IsHeld o now fd s (cleared c) h) (cleared c) o' quiet)

  after_drained-InPhase :
      (c : Connection) → IsHeld s fd → c.closed ≡ false → InPhase (after_drained o now fd c s) fd
  unfolding after_drained
  after_drained-InPhase c h open_now =
      if_either (λ t. InPhase t fd) c.close_after_write
        (close_connection fd (put_connection fd (cleared c) s)) (going_on c)
        (closed-InPhase o now fd s (cleared c))
        (if_either (λ t. InPhase t fd) (has_pending_read c)
          (process_connection_task o now fd (renewed c)) (awaiting c)
          (processed-InPhase o now fd s (cleared c) h (cleared-IsQuiet c open_now))
          (awaiting-InPhase c h open_now))

  after_writes-SameAt :
      (e : WriteEnd) (c : Connection) (j : ℕ) → fd ≢ j → SameAt s (after_writes o now fd e c s) j
  unfolding after_writes
  after_writes-SameAt drained c j n = after_drained-SameAt c j n
  after_writes-SameAt waits c j n = rested-SameAt fd s writable_once (finish_processing c) j n
  after_writes-SameAt broken c j n = close-SameAt fd s j n

  after_writes-InPhase :
      (e : WriteEnd) (c d : Connection)
      → s.connections fd ≡ some c
      → IsHeld s fd
      → d.closed ≡ false
      → IsSending d
      → InPhase (after_writes o now fd e d s) fd
  unfolding after_writes
  after_writes-InPhase drained c d at h open_now k = after_drained-InPhase d h open_now
  after_writes-InPhase waits c d at h open_now k = writable-InPhase fd s h d open_now k
  after_writes-InPhase broken c d at h open_now k = close-InPhase fd s c at

  module _ (answers : ℕ → WriteAnswer) where
    pub handle_write-none : s.connections fd ≡ none → handle_write o now answers fd s ≡ s
    unfolding handle_write
    handle_write-none h = rw (h, handle_write) refl

    pub handle_write-some :
        (c : Connection)
        → s.connections fd ≡ some c
        → handle_write o now answers fd s
          ≡ after_writes o now fd (written answers c).result (written answers c).conn s
    unfolding handle_write
    handle_write-some c h = rw (h, handle_write) refl

    pub handle_write-SameAt : (j : ℕ) → fd ≢ j → SameAt s (handle_write o now answers fd s) j
    handle_write-SameAt j n = elim (Option-cases (s.connections fd)) [
      | inl gone ↦ rw (handle_write-none gone) (SameAt-refl s j)
      | inr (c, at) ↦
          rw (handle_write-some c at)
            (after_writes-SameAt (written answers c).result (written answers c).conn j n)
    ]

    pub handle_write-InPhase :
        (c : Connection)
        → s.connections fd ≡ some c
        → IsHeld s fd
        → c.closed ≡ false
        → IsSending c
        → InPhase (handle_write o now answers fd s) fd
    handle_write-InPhase c at h open_now k =
        let w = written-IsWritten answers c k in
        rw (handle_write-some c at) (
          after_writes-InPhase (written answers c).result c (written answers c).conn at h
            (w.same_closed ∙ open_now) w.sending)
