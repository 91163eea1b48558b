-- ===== src/HttpServer/Threads/Alone/Refines.antt =====
-- The handlers of Steps beside the runs of Threads in which one worker takes all the steps.
use mini_server.Prelude.{
  ℕ, ◌≡◌, refl, sym, subst, inl, inr, Bool, true, false, List, [], Bool-cases,
}
use mini_server.Connection.Sending.{IsSending}
use mini_server.HttpServer.{Outside, reads, writes}
use mini_server.HttpServer.Handlers.{WriteAnswer, ReadRun, handle_read, handle_write}
use mini_server.HttpServer.Threads.{
  getting_to_read, reading, getting_to_write, testing, at, Shared, ReadAnswer, goes_on, begun,
  work_at,
}
use mini_server.HttpServer.Threads.Alone.{all_reads, Ends, rests, going, seen, seen_out}
use mini_server.HttpServer.Threads.Alone.Reading.{read_ends}
use mini_server.HttpServer.Threads.Alone.Writing.{write_ends}

-- What `read` answers in a run of `handleRead`: nothing if there is no connection.
abbrev pub asked : Bool → ReadRun → List ReadAnswer
asked true run = all_reads run.last run.chunks
asked false run = []

module _ (o : Outside) (now fd : ℕ) (s : Shared) (answers : ℕ → WriteAnswer) where
  -- Without a connection both handlers return at once.
  module _ (out : s.table fd ≡ false) where
    out_reads :
        (run : ReadRun)
        → Ends o now answers [] 0 (at fd getting_to_read) s (handle_read o now run fd (seen s))
    unfolding work_at handle_read
    out_reads run =
        let result = handle_read o now run fd (seen s) in
        going o now answers [] 0 fd getting_to_read s result refl (
          subst (λ b. Ends o now answers [] 0 (goes_on b fd reading) s result) (sym out)
            (s, rests, rw (seen_out s fd out, handle_read) refl))

    out_writes :
        Ends o now answers [] 0 (at fd getting_to_write) s (handle_write o now answers fd (seen s))
    unfolding work_at handle_write
    out_writes =
        let result = handle_write o now answers fd (seen s) in
        going o now answers [] 0 fd getting_to_write s result refl (
          subst (λ b. Ends o now answers [] 0 (goes_on b fd testing) s result) (sym out)
            (s, rests, rw (seen_out s fd out, handle_write) refl))

  -- From any shared state in which the offsets of the connection are in range, for any answers of `read` and of
  -- `writev`: a worker that begins with a task for a descriptor, gets these answers from its calls one after the
  -- other, all of those of `read`, and is not interrupted by another thread, comes to its end; what Steps keeps of
  -- the state, the open connections, registrations, timers and queue, is then what handleRead or handleWrite, taken
  -- as one step, makes of it with the same answers.
  pub handlers-Ends :
      (run : ReadRun)
      → IsSending (s.objects fd)
      → Ends o now answers
          (asked (s.table fd) run)
          0
          (begun (reads fd))
          s
          (handle_read o now run fd (seen s))
        × Ends o now answers [] 0 (begun (writes fd)) s (handle_write o now answers fd (seen s))
  handlers-Ends run sending_now = elim (Bool-cases (s.table fd)) [
    | inl there ↦ (
      subst
          (λ b.
            Ends o now answers (asked b run) 0 (begun (reads fd)) s
              (handle_read o now run fd (seen s)))
          (sym there) (read_ends o now fd answers 0 run s there),
      write_ends o now fd answers s there sending_now,
    )
    | inr out ↦ (
      subst
          (λ b.
            Ends o now answers (asked b run) 0 (begun (reads fd)) s
              (handle_read o now run fd (seen s)))
          (sym out) (out_reads out run),
      out_writes out,
    )
  ]
