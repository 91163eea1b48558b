-- ===== src/HttpServer/Traffic/Served.antt =====
-- The traffic of a descriptor in the reachable states.
use mini_server.Prelude.{
  ℕ, ◌+◌, ◌≡◌, refl, sym, ap, ◌∙◌, subst, ◌≢◌, inl, inr, Bool, true, false, some, List, [], ◌∷◌,
  arith, ==-refl, ==→eq, Bool-cases, Option-cases, if◌then◌else◌, sum, ◌==◌,
}
use mini_server.Bytes.{Bytes}
use mini_server.Connection.{connection}
use mini_server.Connection.Sending.{remaining}
use mini_server.TimerHeap.{pop_expired}
use mini_server.HttpServer.{HttpServer, Outside, Task, reads, writes, accept_one}
use mini_server.HttpServer.Handlers.{
  ReadRun, WriteAnswer, handle_read, handle_write, close_idle_connections,
}
use mini_server.HttpServer.Steps.{
  Event, accepts, hangs_up, is_readable, is_writable, works, sweeps, run_first, step, http_server,
  read_tasks, write_tasks, ReusesNone, Reaches, starts, steps,
}
use mini_server.HttpServer.Phases.{AllInPhase}
use mini_server.HttpServer.Phases.Events.{Phase-at}
use mini_server.HttpServer.Phases.Dispatching.{held_read, held_write}
use mini_server.HttpServer.Phases.Running.{handle_read-none, handle_read-SameAt}
use mini_server.HttpServer.Phases.Writing.{handle_write-none, handle_write-SameAt}
use mini_server.HttpServer.Phases.Reaching.{Reaches-AllInPhase}
use mini_server.HttpServer.Keeping.{Reaches-root}
use mini_server.HttpServer.Traffic.{
  Traffic, no_traffic, read_traffic, write_traffic, work_traffic, event_traffic, traffic,
}
use mini_server.HttpServer.Traffic.Unmoved.{
  close_all-IsUnmoved, on_hang_up-IsUnmoved, on_readable-IsUnmoved, on_writable-IsUnmoved,
}
use mini_server.HttpServer.Traffic.Carried.{responses, request_bytes, IsCarried, unmoved-IsCarried}
use mini_server.HttpServer.Traffic.Handled.{handle_read-IsCarried, handle_write-IsCarried}

module _ (o : Outside) (now : ℕ) (run : ReadRun) (answers : ℕ → WriteAnswer) (fd : ℕ)
    (s : HttpServer) (p : AllInPhase s) (t : Traffic) (ts : List Task)
    (k : IsCarried s.html_root t (s.connections fd)) where
  abbrev taken : HttpServer
  taken = record s { tasks = ts }

  own_read :
      s.tasks ≡ reads fd ∷ ts
      → IsCarried s.html_root
          (read_traffic o now run (s.connections fd) t)
          ((handle_read o now run fd taken).connections fd)
  own_read e = elim (Option-cases (s.connections fd)) [
    | inl gone ↦ rw (handle_read-none o now fd taken run gone, gone) tt
    | inr (c, at) ↦
        let some_read : sum (read_tasks fd) s.tasks ≡ 1 + sum (read_tasks fd) ts =
          ap (sum (read_tasks fd)) e ∙ rw (==-refl fd) refl in
        let (un, open_now, r, w, quiet) =
          held_read c (s.interest fd) _ _ (Phase-at fd s p (some c) (s.interest fd) at refl)
            (omega arith) in
        subst
          (λ x.
            IsCarried s.html_root (read_traffic o now run x t)
              ((handle_read o now run fd taken).connections fd))
          (sym at)
          (handle_read-IsCarried o now fd taken t run c at open_now quiet
            (subst (IsCarried s.html_root t) at k))
  ]

  own_write :
      s.tasks ≡ writes fd ∷ ts
      → IsCarried s.html_root
          (write_traffic o answers (s.connections fd) t)
          ((handle_write o now answers fd taken).connections fd)
  own_write e = elim (Option-cases (s.connections fd)) [
    | inl gone ↦ rw (handle_write-none o now fd taken answers gone, gone) tt
    | inr (c, at) ↦
        let some_write : sum (write_tasks fd) s.tasks ≡ 1 + sum (write_tasks fd) ts =
          ap (sum (write_tasks fd)) e ∙ rw (==-refl fd) refl in
        let (un, open_now, r, w, sending) =
          held_write c (s.interest fd) _ _ (Phase-at fd s p (some c) (s.interest fd) at refl)
            (omega arith) in
        subst
          (λ x.
            IsCarried s.html_root (write_traffic o answers x t)
              ((handle_write o now answers fd taken).connections fd))
          (sym at)
          (handle_write-IsCarried o now fd taken t answers c at open_now sending
            (subst (IsCarried s.html_root t) at k))
  ]

  -- A test that tells whether the task is the descriptor's own.
  tested :
      (b : Bool) (t' : Traffic) (u : HttpServer)
      → (b ≡ true → IsCarried s.html_root t' (u.connections fd))
      → (b ≡ false → u.connections fd ≡ s.connections fd)
      → IsCarried s.html_root (if b then t' else t) (u.connections fd)
  tested true t' u own other = own refl
  tested false t' u own other = rw (other refl) k

not_same : (j fd : ℕ) → (j == fd) ≡ false → j ≢ fd
not_same j fd h e = cc (h, ==-refl fd, ap (λ x. x == fd) e)

run_first-IsCarried :
    (o : Outside) (now : ℕ) (run : ReadRun) (answers : ℕ → WriteAnswer) (fd : ℕ) (s : HttpServer)
    (t : Traffic) (ts : List Task)
    → AllInPhase s
    → s.tasks ≡ ts
    → IsCarried s.html_root t (s.connections fd)
    → IsCarried s.html_root
        (work_traffic o now run answers fd ts s t)
        ((run_first o now run answers ts s).connections fd)
run_first-IsCarried o now run answers fd s t [] p e k = k
run_first-IsCarried o now run answers fd s t (reads j ∷ ts) p e k =
    let u = taken o now run answers fd s p t ts k in
    tested o now run answers fd s p t ts k (j == fd) (read_traffic o now run (s.connections fd) t)
      (handle_read o now run j u)
      (λ same.
        subst
          (λ i.
            IsCarried s.html_root (read_traffic o now run (s.connections fd) t)
              ((handle_read o now run i u).connections fd))
          (sym (==→eq j fd same))
          (own_read o now run answers fd s p t ts k (e ∙ ap (λ i. reads i ∷ ts) (==→eq j fd same))))
      (λ other. (handle_read-SameAt o now j u run fd (not_same j fd other)).conn)
run_first-IsCarried o now run answers fd s t (writes j ∷ ts) p e k =
    let u = taken o now run answers fd s p t ts k in
    tested o now run answers fd s p t ts k (j == fd) (write_traffic o answers (s.connections fd) t)
      (handle_write o now answers j u)
      (λ same.
        subst
          (λ i.
            IsCarried s.html_root (write_traffic o answers (s.connections fd) t)
              ((handle_write o now answers i u).connections fd))
          (sym (==→eq j fd same))
          (own_write o now run answers fd s p t ts k
            (e ∙ ap (λ i. writes i ∷ ts) (==→eq j fd same))))
      (λ other. (handle_write-SameAt o now j u answers fd (not_same j fd other)).conn)

accept-IsCarried :
    (o : Outside) (root : Bytes) (now fd j : ℕ) (ip : Bytes) (added : Bool) (s : HttpServer)
    (t : Traffic)
    → IsCarried root t (s.connections fd)
    → IsCarried root
        (if j == fd then no_traffic else t)
        ((accept_one added now j ip s).connections fd)
unfolding accept_one connection remaining responses request_bytes
accept-IsCarried o root now fd j ip added s t k = elim (Bool-cases (j == fd)) [
  | inl same ↦ rw same (refl, refl)
  | inr other ↦ rw other k
]

step-IsCarried :
    (o : Outside) (now fd : ℕ) (s : HttpServer) (e : Event) (t : Traffic)
    → AllInPhase s
    → IsCarried s.html_root t (s.connections fd)
    → IsCarried s.html_root (event_traffic o fd now s e t) ((step o now s e).connections fd)
unfolding step close_idle_connections
step-IsCarried o now fd s (accepts j ip added) t p k =
    accept-IsCarried o s.html_root now fd j ip added s t k
step-IsCarried o now fd s (hangs_up j) t p k =
    unmoved-IsCarried o s.html_root t (s.connections fd) _
      (on_hang_up-IsUnmoved j fd s (s.interest j)) k
step-IsCarried o now fd s (is_readable j) t p k =
    unmoved-IsCarried o s.html_root t (s.connections fd) _
      (on_readable-IsUnmoved j fd s (s.interest j)) k
step-IsCarried o now fd s (is_writable j) t p k =
    unmoved-IsCarried o s.html_root t (s.connections fd) _
      (on_writable-IsUnmoved j fd s (s.interest j)) k
step-IsCarried o now fd s (works run answers) t p k =
    run_first-IsCarried o now run answers fd s t s.tasks p refl k
step-IsCarried o now fd s sweeps t p k =
    let swept = pop_expired now s.timers in
    unmoved-IsCarried o s.html_root t (s.connections fd) _
      (close_all-IsUnmoved swept.expired fd (record s { timers = swept.timers })) k

-- In every state that the server reaches, each handler taken as one step, if no descriptor that a task is left
-- for is accepted again: for every descriptor with a connection, the bytes received on it since it was
-- accepted are the requests extracted from them, in order, and what its read buffer holds; and the bytes sent on
-- it and those left to send are the responses to these requests, in order and without a gap, each by what the
-- files and the user service answered then.
pub traffic-IsCarried :
    (idle_timeout : ℕ) (root : Bytes) (s : HttpServer)
    (r : Reaches (http_server idle_timeout root) s)
    → ReusesNone r
    → (fd : ℕ) → IsCarried root (traffic fd r) (s.connections fd)
unfolding traffic
traffic-IsCarried idle_timeout root s starts n fd = tt
traffic-IsCarried idle_timeout root t (steps {s = u} o now e r f) n fd =
    let same = Reaches-root (http_server idle_timeout root) u r in
    subst
      (λ x.
        IsCarried x (event_traffic o fd now u e (traffic fd r)) ((step o now u e).connections fd))
      same
      (step-IsCarried o now fd u e (traffic fd r) (Reaches-AllInPhase idle_timeout root u r n.1) (
        subst (λ x. IsCarried x (traffic fd r) (u.connections fd)) (sym same)
          (traffic-IsCarried idle_timeout root u r n.1 fd)))
