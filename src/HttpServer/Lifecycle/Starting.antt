-- ===== src/HttpServer/Lifecycle/Starting.antt =====
-- `HttpServer::start` on each of its results, and the destructor behind it.
use mini_server.Prelude.{
  ℕ, ◌+◌, ◌≡◌, refl, ap, subst, inl, inr, Bool, true, false, not, ◌&&◌, Option, none, some, List,
  [], ◌++◌, arith, Bool-cases, Option-cases, count, count-append, if_either, if◌then◌else◌, is_none,
  one_if, some_eq,
}
use mini_server.Epoller.{valid}
use mini_server.Logger.{Logger}
use mini_server.DatabasePool.{DatabasePool}
use mini_server.HttpServer.{HttpServer}
use mini_server.HttpServer.Steps.{Work}
use mini_server.HttpServer.Config.{HttpServerConfig}
use mini_server.HttpServer.Lifecycle.Stopping.{is_some}
use mini_server.HttpServer.Listening.{held, init_listen_socket, Listening}
use mini_server.HttpServer.Listening.Opened.{
  created, closed_by, NoneLeaks, init_listen_socket-IsListening,
}
use mini_server.HttpServer.Loop.{Round, LoopEnd, stopped, failed, looping, event_loop}
use mini_server.HttpServer.Lifecycle.{
  Lifecycle, Startup, new_server, register, listen, after_database, begin_start, Started, returned,
  after_loop, run_loop, start, join_workers, closings, stop_running, stop,
}
use mini_server.HttpServer.Lifecycle.Stopping.{
  Lists, closings-once, created-append, created-closings,
}

-- A server that no client has reached.
abbrev IsFresh : Lifecycle → Type 0
IsFresh l = (l.threads ≡ 0) × ((a : ℕ) → l.server.connections a ≡ none)

-- Where `start` stands before its loop, or has returned: each socket is held or closed, and without a
-- listening one there is no client.
abbrev IsHolding : Bool → Lifecycle → Type 0
IsHolding b l =
    NoneLeaks l.calls l.listen_fd
    × (is_none l.listen_fd ≡ true → IsFresh l)
    × (b ≡ true → is_none l.listen_fd ≡ false)

module _ (u : Startup) (l : Lifecycle) (fresh : IsFresh l) (empty : l.calls ≡ []) where
  after_listen-IsHolding :
      (r : Listening)
      → NoneLeaks (l.calls ++ r.calls) r.listen_fd
      → (r.ok ≡ true → is_none r.listen_fd ≡ false)
      → let m : Lifecycle = record l { listen_fd = r.listen_fd; calls = l.calls ++ r.calls } in
        let x = if r.ok then register u m else (false, m) in IsHolding x.0 x.1
  after_listen-IsHolding r kept there = elim (Bool-cases r.ok) [
    | inr bad ↦ rw bad (kept, λ h. fresh, λ h. cc)
    | inl good ↦ elim (Bool-cases u.registered) [
      | inr refused ↦ rw (good, refused) (kept, λ h. fresh, λ h. cc)
      | inl taken ↦ rw (good, taken) (kept, λ h. cc (h, there good), λ h. there good)
    ]
  ]

  listen-IsHolding : let x = listen u l in IsHolding x.0 x.1
  listen-IsHolding =
      let r = init_listen_socket l.config.port u.network in
      let (kept, none_left, opened) = init_listen_socket-IsListening l.config.port u.network in
      after_listen-IsHolding r (rw empty kept)
        (λ good. let (fd, flags, made, at, quick, rest) = opened good in rw at refl)

after_database-IsHolding :
    (u : Startup) (r : Bool × DatabasePool) (l : Lifecycle)
    → IsFresh l
    → l.calls ≡ []
    → l.listen_fd ≡ none
    → let x = after_database u r l in IsHolding x.0 x.1
unfolding after_database
after_database-IsHolding u (ok, db) l fresh empty closed =
    let m : Lifecycle = record l { database = db } in
    let unopened : NoneLeaks l.calls l.listen_fd = rw (empty, closed) λ a. omega arith in
    if_either (λ (x : Bool × Lifecycle). IsHolding x.0 x.1) (ok && valid l.epoll) (listen u m)
      (false, m) (listen-IsHolding u m fresh empty) (unopened, λ h. fresh, λ h. cc)

-- What is kept of `IsHolding` when `start` returns.
abbrev IsHeld : Lifecycle → Type 0
IsHeld l = NoneLeaks l.calls l.listen_fd × (is_none l.listen_fd ≡ true → IsFresh l)

abbrev ReturnsHeld : Started → Type 0
ReturnsHeld (returned b l) = IsHeld l
ReturnsHeld _ = Unit

after_loop-ReturnsHeld :
    (e : LoopEnd) (s : HttpServer) (l : Lifecycle)
    → IsHolding true l
    → ReturnsHeld (after_loop (e, s) l)
after_loop-ReturnsHeld stopped s l h = (h.0, λ gone. cc (gone, h.2 refl))
after_loop-ReturnsHeld failed s l h = (h.0, λ gone. cc (gone, h.2 refl))
after_loop-ReturnsHeld looping s l h = tt

run_loop-ReturnsHeld :
    (rounds : List Round) (x : Option (Bool × Lifecycle))
    → ((b : Bool) (l : Lifecycle) → x ≡ some (b, l) → IsHolding b l)
    → ReturnsHeld (run_loop rounds x)
run_loop-ReturnsHeld rounds none h = tt
run_loop-ReturnsHeld rounds (some (false, l)) h = let k = h false l refl in (k.0, k.1)
run_loop-ReturnsHeld rounds (some (true, l)) h =
    let e = event_loop l.listen_fd rounds l.server in
    after_loop-ReturnsHeld e.0 e.1 l (h true l refl)

begin_start-IsHolding :
    (u : Startup) (config : HttpServerConfig) (epfd : Option ℕ) (log : Logger) (b : Bool)
    (l : Lifecycle)
    → begin_start u (new_server config epfd log) ≡ some (b, l)
    → IsHolding b l
unfolding begin_start
begin_start-IsHolding u config epfd log b l h =
    let m : Lifecycle = record (new_server config epfd log) {
      log = mini_server.Logger.init config.access_log_path log;
    } in
    elim (Option-cases (mini_server.DatabasePool.init u.attempt u.schema_ok m.database)) [
      | inl waits ↦ cc (rw (waits, begin_start) at h)
      | inr (r, ready) ↦
          let here : after_database u r m ≡ (b, l) = some_eq (rw (ready, begin_start) at h) in
          subst (λ (x : Bool × Lifecycle). IsHolding x.0 x.1) here
            (after_database-IsHolding u r m (refl, λ a. refl) refl refl)
    ]

start-ReturnsHeld :
    (u : Startup) (rounds : List Round) (config : HttpServerConfig) (epfd : Option ℕ) (log : Logger)
    → ReturnsHeld (start u rounds (new_server config epfd log))
unfolding start
start-ReturnsHeld u rounds config epfd log =
    run_loop-ReturnsHeld rounds (begin_start u (new_server config epfd log))
      (begin_start-IsHolding u config epfd log)

-- All that the listening socket and the connections left in the table owe is paid.
pub record IsClosed (joined : HttpServer) (t : Lifecycle) : Type 0 where
  pub not_running : t.running ≡ false
  pub no_socket : t.listen_fd ≡ none
  pub all_closed :
      (a : ℕ)
      → count a (closed_by t.calls)
        ≡ count a (created t.calls) + one_if (is_some (joined.connections a))

module _ (work : ℕ → Work) (order : List ℕ) (l : Lifecycle) where
  stop_running-IsClosed :
      NoneLeaks l.calls l.listen_fd
      → Lists order (join_workers work l.threads l.server)
      → IsClosed (join_workers work l.threads l.server) (stop_running work order l)
  stop_running-IsClosed kept listed = record {
    not_running = refl;
    no_socket = refl;
    all_closed = λ a.
        let once = closings-once work order l a listed in
        let more = closings order ++ closings (held l.listen_fd) in
        omega (
          arith,
          kept a,
          ap (count a) (created-append l.calls more),
          count-append a (created l.calls) (created more),
          ap (count a) (created-append (closings order) (closings (held l.listen_fd))),
          ap (count a) (created-closings order),
          ap (count a) (created-closings (held l.listen_fd)),
          count-append a (created (closings order)) (created (closings (held l.listen_fd))),
        );
  }

  untouched-IsClosed :
      NoneLeaks l.calls l.listen_fd
      → (is_none l.listen_fd ≡ true → IsFresh l)
      → (not l.running && is_none l.listen_fd) ≡ true
      → IsClosed (join_workers work l.threads l.server) l
  untouched-IsClosed kept fresh dead =
      let no_fd : l.listen_fd ≡ none = ground arith in
      let (no_threads, no_clients) = fresh (rw no_fd refl) in
      record {
        not_running = ground arith;
        no_socket = no_fd;
        all_closed = λ a.
            rw (no_threads, no_clients a) (omega (arith, kept a, ap (λ x. count a (held x)) no_fd));
      }

  stop-IsClosed :
      IsHeld l
      → Lists order (join_workers work l.threads l.server)
      → IsClosed (join_workers work l.threads l.server) (stop work order l)
  unfolding stop
  stop-IsClosed (kept, fresh) listed = elim (Bool-cases (not l.running && is_none l.listen_fd)) [
    | inr live ↦ rw live (stop_running-IsClosed kept listed)
    | inl dead ↦ rw dead (untouched-IsClosed kept fresh dead)
  ]

-- Whatever the database, the network and `epoll_ctl` answer while the server starts, and whatever its loop
-- meets: once `start` has returned, true or false, and the destructor has stopped the server in an order
-- that meets each descriptor of the table once, it does not run, it has no listening socket, and
-- `initListenSocket` and `stop` together have closed each descriptor as often as it was made for listening,
-- and once more if it had a connection when the workers were joined. What `closeConnection` closed before
-- that is not counted.
pub stop-start-IsClosed :
    (u : Startup) (rounds : List Round) (config : HttpServerConfig) (epfd : Option ℕ) (log : Logger)
    (b : Bool) (l : Lifecycle) (work : ℕ → Work) (order : List ℕ)
    → start u rounds (new_server config epfd log) ≡ returned b l
    → Lists order (join_workers work l.threads l.server)
    → IsClosed (join_workers work l.threads l.server) (stop work order l)
stop-start-IsClosed u rounds config epfd log b l work order ended listed =
    stop-IsClosed work order l
      (subst ReturnsHeld ended (start-ReturnsHeld u rounds config epfd log)) listed
