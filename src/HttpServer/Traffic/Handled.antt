-- ===== src/HttpServer/Traffic/Handled.antt =====
-- A worker's run and the traffic of its descriptor.
use mathlib.Core.List.{append-nil, append_assoc}
use mini_server.Prelude.{
  ℕ, ◌≡◌, refl, sym, ap, ◌∙◌, subst, inl, inr, Bool, true, false, not, ◌&&◌, none, some, List, [],
  ◌∷◌, ◌++◌, if◌then◌else◌,
}
use mini_server.Bytes.{Bytes}
use mini_server.Connection.{
  Connection, extract_one_request, append_read_data, set_processing, clear_write_data,
  has_pending_read,
}
use mini_server.Connection.Sending.{remaining, IsSending}
use mini_server.Connection.Framing.{extract_one_request_waits}
use mini_server.HttpServer.{
  HttpServer, Outside, respond, finish_processing, close_connection, put_connection, renew_timer,
  process_extracted, process_connection_task,
}
use mini_server.HttpServer.Handlers.{
  ReadRun, ReadEnd, end_of_file, no_more_yet, read_failed, WriteAnswer, WriteEnd, drained, waits,
  broken, append_chunks, concat, written, after_reads, after_drained, after_writes, handle_read,
  handle_write,
}
use mini_server.HttpServer.Sending.{written-IsWritten}
use mini_server.HttpServer.Phases.{set_at_self}
use mini_server.HttpServer.Phases.Closing.{close_connection-some}
use mini_server.HttpServer.Phases.Processing.{
  finish_processing-open, extract-cases, if_false, process-some,
}
use mini_server.HttpServer.Phases.Running.{append_chunks-IsQuiet, handle_read-some, cleared-IsQuiet}
use mini_server.HttpServer.Phases.Writing.{cleared, handle_write-some, renewed, awaiting}
use mini_server.HttpServer.Traffic.{
  Traffic, took, read_ended, read_traffic, write_ended, write_traffic,
}
use mini_server.HttpServer.Traffic.Carried.{
  request_bytes, IsCarriedBy, IsCarried, took-IsCarried, read-IsCarried, cleared-IsCarried,
}

chunks-IsCarried :
    (o : Outside) (root : Bytes) (now : ℕ) (bs : List Bytes) (t : Traffic) (c : Connection)
    → c.closed ≡ false
    → IsCarriedBy root t c
    → IsCarriedBy root (record t { received = t.received ++ concat bs }) (append_chunks now bs c)
unfolding append_chunks append_read_data
chunks-IsCarried o root now [] t c open_now (k, l) = (append-nil t.received ∙ k, l)
chunks-IsCarried o root now (b ∷ bs) t c open_now k =
    subst
      (λ d.
        IsCarriedBy root (record t { received = t.received ++ (b ++ concat bs) })
          (append_chunks now bs d))
      (sym (if_false c.closed c (append_read_data now b c) open_now))
      (rw (← append_assoc t.received b (concat bs)) (
        chunks-IsCarried o root now bs (record t { received = t.received ++ b })
          (append_read_data now b c) open_now (read-IsCarried o root t now b c k)))

-- The three ends of a response.
choose-IsCarried :
    (o : Outside) (root : Bytes) (fd : ℕ) (closes more : Bool) (x y z : HttpServer) (t u : Traffic)
    → IsCarried root t (x.connections fd)
    → IsCarried root u (y.connections fd)
    → IsCarried root t (z.connections fd)
    → IsCarried root
        (if not closes && more then u else t)
        ((if closes then x else if more then y else z).connections fd)
choose-IsCarried o root fd true more x y z t u h k l = h
choose-IsCarried o root fd false true x y z t u h k l = k
choose-IsCarried o root fd false false x y z t u h k l = l

module _ (o : Outside) (now fd : ℕ) (t : Traffic) where
  -- The connection is closed.
  closed-IsCarried :
      (root : Bytes) (c : Connection) (s : HttpServer)
      → s.connections fd ≡ some c
      → IsCarried root t ((close_connection fd s).connections fd)
  closed-IsCarried root c s at =
      rw (close_connection-some fd s c at, set_at_self fd none s.connections) tt

  extracted-IsCarried :
      (s : HttpServer) (c : Connection)
      → c.closed ≡ false
      → remaining c ≡ []
      → IsCarriedBy s.html_root t c
      → IsCarried s.html_root
          (took o (extract_one_request c).1 t)
          ((process_extracted o now fd (extract_one_request c) s).connections fd)
  unfolding remaining
  extracted-IsCarried s c open_now e k = elim (extract-cases (extract_one_request c)) [
    | inl nothing ↦
        let same = (extract_one_request_waits c _ nothing).0 in
        rw (nothing, same, set_at_self fd (some (set_processing false c)) s.connections) k
    | inr (raw, found) ↦
        let c' = (extract_one_request c).0 in
        rw
          (
            found,
            set_at_self fd (some (finish_processing (respond o s.html_root now raw c')))
                s.connections,
          )
          (took-IsCarried o s.html_root t now c c' raw open_now e found k)
  ]

  -- The next request is taken, if there is one.
  process-IsCarried :
      (s : HttpServer) (c : Connection)
      → s.connections fd ≡ some c
      → c.closed ≡ false
      → remaining c ≡ []
      → IsCarriedBy s.html_root t c
      → IsCarried s.html_root
          (took o (extract_one_request c).1 t)
          ((process_connection_task o now fd s).connections fd)
  process-IsCarried s c at open_now e k =
      rw
        (process-some o now fd s c at, if_false c.closed (c, none) (extract_one_request c) open_now)
        (extracted-IsCarried s c open_now e k)

-- The connection's run of `handleRead`.
module _ (o : Outside) (now fd : ℕ) (s : HttpServer) where
  read_ended-IsCarried :
      (t : Traffic) (e : ReadEnd) (c : Connection)
      → c.closed ≡ false
      → remaining c ≡ []
      → IsCarriedBy s.html_root t c
      → IsCarried s.html_root
          (read_ended o e c t)
          ((after_reads o now fd e (put_connection fd c s)).connections fd)
  read_ended-IsCarried t end_of_file c open_now e k =
      closed-IsCarried o now fd t s.html_root c (put_connection fd c s)
        (set_at_self fd (some c) s.connections)
  read_ended-IsCarried t read_failed c open_now e k =
      closed-IsCarried o now fd t s.html_root c (put_connection fd c s)
        (set_at_self fd (some c) s.connections)
  read_ended-IsCarried t no_more_yet c open_now e k =
      process-IsCarried o now fd t (renew_timer now fd (put_connection fd c s)) c
        (set_at_self fd (some c) s.connections) open_now e k

  pub handle_read-IsCarried :
      (t : Traffic) (run : ReadRun) (c : Connection)
      → s.connections fd ≡ some c
      → c.closed ≡ false
      → remaining c ≡ []
      → IsCarriedBy s.html_root t c
      → IsCarried s.html_root
          (read_traffic o now run (some c) t)
          ((handle_read o now run fd s).connections fd)
  handle_read-IsCarried t run c at open_now e k =
      let (still_open, quiet) = append_chunks-IsQuiet now run.chunks c (open_now, e) in
      rw (handle_read-some o now fd s run c at) (
        read_ended-IsCarried (record t { received = t.received ++ concat run.chunks }) run.last
          (append_chunks now run.chunks c) still_open quiet
          (chunks-IsCarried o s.html_root now run.chunks t c open_now k))

-- The connection's run of `handleWrite`.
module _ (o : Outside) (now fd : ℕ) (s : HttpServer) (t : Traffic) where
  -- `finishProcessing` moves no byte.
  finished-IsCarried :
      (c : Connection) (u : HttpServer)
      → c.closed ≡ false
      → IsCarriedBy s.html_root t c
      → IsCarried s.html_root t ((put_connection fd (finish_processing c) u).connections fd)
  unfolding remaining
  finished-IsCarried c u open_now k =
      rw
        (
          set_at_self fd (some (finish_processing c)) u.connections,
          finish_processing-open c open_now,
        )
        k

  drained-IsCarried :
      (c : Connection)
      → c.closed ≡ false
      → remaining c ≡ []
      → IsCarriedBy s.html_root t c
      → IsCarried s.html_root
          (write_ended o drained c t)
          ((after_drained o now fd c s).connections fd)
  unfolding after_drained clear_write_data
  drained-IsCarried c open_now e k =
      let ready = cleared-IsCarried o s.html_root t c e k in
      let stored = put_connection fd (cleared c) s in
      choose-IsCarried o s.html_root fd c.close_after_write (has_pending_read c)
        (close_connection fd stored) (process_connection_task o now fd (renewed o now fd s c))
        (awaiting o now fd s c) t (took o (extract_one_request (cleared c)).1 t)
        (closed-IsCarried o now fd t s.html_root (cleared c) stored
          (set_at_self fd (some (cleared c)) s.connections))
        (process-IsCarried o now fd t (renewed o now fd s c) (cleared c)
          (set_at_self fd (some (cleared c)) s.connections) open_now (cleared-IsQuiet c open_now).1
          ready)
        (finished-IsCarried (cleared c) (renewed o now fd s c) open_now ready)

  written-IsCarried :
      (e : WriteEnd) (c d : Connection)
      → s.connections fd ≡ some c
      → d.closed ≡ false
      → (e ≡ drained → remaining d ≡ [])
      → IsCarriedBy s.html_root t d
      → IsCarried s.html_root (write_ended o e d t) ((after_writes o now fd e d s).connections fd)
  unfolding after_writes
  written-IsCarried drained c d at open_now done k = drained-IsCarried d open_now (done refl) k
  written-IsCarried waits c d at open_now done k = finished-IsCarried d s open_now k
  written-IsCarried broken c d at open_now done k = closed-IsCarried o now fd t s.html_root c s at

pub handle_write-IsCarried :
    (o : Outside) (now fd : ℕ) (s : HttpServer) (t : Traffic) (answers : ℕ → WriteAnswer)
    (c : Connection)
    → s.connections fd ≡ some c
    → c.closed ≡ false
    → IsSending c
    → IsCarriedBy s.html_root t c
    → IsCarried s.html_root
        (write_traffic o answers (some c) t)
        ((handle_write o now answers fd s).connections fd)
handle_write-IsCarried o now fd s t answers c at open_now sending (k, l) =
    let w = written answers c in
    let h = written-IsWritten answers c sending in
    rw (handle_write-some o now fd s answers c at) (
      written-IsCarried o now fd s (record t { sent = t.sent ++ w.bytes }) w.result c w.conn at
        (h.same_closed ∙ open_now) (h.all_sent open_now)
        (
          k ∙ ap (◌++◌ (request_bytes t.requests)) (sym h.same_read),
          append_assoc t.sent w.bytes (remaining w.conn) ∙ ap (◌++◌ t.sent) h.in_order ∙ l,
        ))
