-- ===== src/HttpServer/Loop.antt =====
-- `HttpServer::eventLoop` and `handleAccept`. What `epoll_wait` and `accept` answer is an argument, and so
-- is what the workers do in between. The kernel disarms a one-shot descriptor when it reports it; here
-- that happens when the loop comes to it, before which nothing touches the descriptor.
pub mod Refines
use mini_server.HttpServer.Handlers.{close_idle_connections}
use mini_server.HttpServer.Steps.{Work, disarm, run_works}
use mini_server.Bytes.{Bytes}
use mini_server.Prelude.{
  ℕ, Bool, false, ◌||◌, Option, none, some, List, [], ◌∷◌, if◌then◌else◌, ◌==◌,
}
use mini_server.HttpServer.{
  HttpServer, reads, writes, close_connection, Bytes, dispatch, accept_one,
}

-- What `epoll_wait` reports of one descriptor, with what `accept` gives until it fails if that is the
-- listening one: descriptors, addresses and whether EPOLL_CTL_ADD succeeds. `before` is what the workers do before the loop comes to it.
pub record Report : Type 0 where
  pub fd : ℕ
  pub hang_up : Bool
  pub error : Bool
  pub readable : Bool
  pub writable : Bool
  pub accepted : List (ℕ × Bytes × Bool)
  pub before : List Work
  pub now : ℕ

-- Any error of `accept` leaves its loop, EAGAIN without a message.
unfoldable pub handle_accept : ℕ → List (ℕ × Bytes × Bool) → HttpServer → HttpServer
handle_accept now [] s = s
handle_accept now ((fd, peer_ip, added) ∷ rest) s =
    handle_accept now rest (accept_one added now fd peer_ip s)

abbrev pub handle_client : Report → HttpServer → HttpServer
handle_client r s =
    if r.hang_up || r.error
    then close_connection r.fd s
    else if r.readable
    then dispatch r.fd (reads r.fd) s
    else if r.writable
    then dispatch r.fd (writes r.fd) s
    else s

-- fd == listenFd_
abbrev pub is_listening : Option ℕ → ℕ → Bool
is_listening none fd = false
is_listening (some listen_fd) fd = fd == listen_fd

-- The body of the loop over the reported descriptors.
unfoldable pub handle_report : Option ℕ → Report → HttpServer → HttpServer
handle_report listen_fd r s =
    if is_listening listen_fd r.fd
    then handle_accept r.now r.accepted s
    else handle_client r (disarm r.fd s)

unfoldable pub handle_reports : Option ℕ → List Report → HttpServer → HttpServer
handle_reports listen_fd [] s = s
handle_reports listen_fd (r ∷ rs) s =
    handle_reports listen_fd rs (handle_report listen_fd r (run_works r.before s))

-- `epoll_wait` returns -1 with EINTR, -1 with another error, or reports descriptors.
pub data Waited : Type 0 where
  interrupted : Waited
  wait_failed : Waited
  reported : List Report → Waited

-- One round of the loop: whether `requestStop` was called before its test, what the workers do before
-- the wait returns and before the idle sweep, and the times of these.
pub record Round : Type 0 where
  pub stop_requested : Bool
  pub while_waiting : List Work
  pub waited : Waited
  pub before_sweep : List Work
  pub sweep_now : ℕ

-- Where the loop is after some rounds.
pub data LoopEnd : Type 0 where
  stopped : LoopEnd
  failed : LoopEnd
  looping : LoopEnd

unfoldable pub sweep_round : Option ℕ → Round → List Report → HttpServer → HttpServer
sweep_round listen_fd r reports s =
    close_idle_connections r.sweep_now
      (run_works r.before_sweep (handle_reports listen_fd reports s))

-- HttpServer::eventLoop, for as many rounds as are given. `failed` leaves `running_` as it is.
unfoldable pub event_loop : Option ℕ → List Round → HttpServer → LoopEnd × HttpServer
event_loop listen_fd [] s = (looping, s)
event_loop listen_fd (r ∷ rs) s =
    let waiting = run_works r.while_waiting s in
    let again = event_loop listen_fd rs waiting in
    let next : LoopEnd × HttpServer = elim r.waited [
      | interrupted ↦ again
      | wait_failed ↦ (failed, waiting)
      | reported reports ↦ event_loop listen_fd rs (sweep_round listen_fd r reports waiting)
    ] in
    if r.stop_requested then (stopped, s) else next
