-- ===== src/HttpServer/Phases/Events.antt =====
-- The events of the loop, and the phases behind them.
use mini_server.Prelude.{
  ℕ, ◌≡◌, refl, sym, subst, inl, inr, Bool, true, false, Option, none, some, Option-cases, ne→==,
  sum,
}
use mini_server.Bytes.{Bytes}
use mini_server.Connection.{Connection, connection}
use mini_server.Connection.Sending.{remaining}
use mini_server.Epoller.{Interest, absent, disarmed, readable_once, writable_once, added, epoll_add}
use mini_server.HttpServer.{HttpServer, reads, writes, accept_one}
use mini_server.HttpServer.Steps.{
  disarm, on_hang_up, on_readable, on_writable, read_tasks, write_tasks,
}
use mini_server.HttpServer.Phases.{Phase, AllInPhase, one-AllInPhase, set_at_self, set_at_ne}
use mini_server.HttpServer.Phases.Dispatching.{
  hang_up-AllInPhase, dispatch-resting, handed, handed-SameAt, handed_read, handed_write,
}

-- Without a connection a descriptor is not registered.
pub unregistered : (i : Interest) (r w : ℕ) → Phase none i r w → i ≡ absent
unregistered absent r w p = refl
unregistered disarmed r w p = absurd p
unregistered readable_once r w p = absurd p
unregistered writable_once r w p = absurd p

module _ (fd : ℕ) (s : HttpServer) (p : AllInPhase s) where
  -- The phase of `fd`, with what stands there.
  pub Phase-at :
      (o : Option Connection) (i : Interest)
      → s.connections fd ≡ o
      → s.interest fd ≡ i
      → Phase o i (sum (read_tasks fd) s.tasks) (sum (write_tasks fd) s.tasks)
  Phase-at o i at armed = rw (← at, ← armed) (p fd)

  pub on_hang_up-AllInPhase : (i : Interest) → s.interest fd ≡ i → AllInPhase (on_hang_up i fd s)
  on_hang_up-AllInPhase absent e = p
  on_hang_up-AllInPhase disarmed e = p
  on_hang_up-AllInPhase readable_once e = elim (Option-cases (s.connections fd)) [
    | inl gone ↦ absurd (Phase-at none readable_once gone e)
    | inr (c, at) ↦ hang_up-AllInPhase fd s p c at
  ]
  on_hang_up-AllInPhase writable_once e = elim (Option-cases (s.connections fd)) [
    | inl gone ↦ absurd (Phase-at none writable_once gone e)
    | inr (c, at) ↦ hang_up-AllInPhase fd s p c at
  ]

  pub on_readable-AllInPhase : (i : Interest) → s.interest fd ≡ i → AllInPhase (on_readable i fd s)
  on_readable-AllInPhase absent e = p
  on_readable-AllInPhase disarmed e = p
  on_readable-AllInPhase writable_once e = p
  on_readable-AllInPhase readable_once e = elim (Option-cases (s.connections fd)) [
    | inl gone ↦ absurd (Phase-at none readable_once gone e)
    | inr (c, at) ↦
        let q = Phase-at (some c) readable_once at e in
        subst AllInPhase (sym (dispatch-resting fd (disarm fd s) (reads fd) c at q.0.0 q.0.1)) (
          one-AllInPhase s (handed fd s (reads fd) c) fd p
            (λ j n. handed-SameAt fd s (reads fd) c j n (rw (ne→== fd j n) refl) refl)
            (handed_read fd s c q))
  ]

  pub on_writable-AllInPhase : (i : Interest) → s.interest fd ≡ i → AllInPhase (on_writable i fd s)
  on_writable-AllInPhase absent e = p
  on_writable-AllInPhase disarmed e = p
  on_writable-AllInPhase readable_once e = p
  on_writable-AllInPhase writable_once e = elim (Option-cases (s.connections fd)) [
    | inl gone ↦ absurd (Phase-at none writable_once gone e)
    | inr (c, at) ↦
        let q = Phase-at (some c) writable_once at e in
        subst AllInPhase (sym (dispatch-resting fd (disarm fd s) (writes fd) c at q.0.0 q.0.1)) (
          one-AllInPhase s (handed fd s (writes fd) c) fd p
            (λ j n. handed-SameAt fd s (writes fd) c j n refl (rw (ne→== fd j n) refl))
            (handed_write fd s c q))
  ]

  -- A new connection: armed for reading, nothing to send.
  pub accept-AllInPhase :
      (added : Bool) (now : ℕ) (ip : Bytes)
      → s.interest fd ≡ absent
      → sum (read_tasks fd) s.tasks ≡ 0
      → sum (write_tasks fd) s.tasks ≡ 0
      → AllInPhase (accept_one added now fd ip s)
  unfolding accept_one connection epoll_add remaining
  accept-AllInPhase true now ip free r w =
      let new = connection fd ip now in
      let i = added readable_once (s.interest fd) in
      one-AllInPhase s (accept_one true now fd ip s) fd p
        (λ j n. record {
          conn = set_at_ne fd (some new) s.connections j n;
          armed = set_at_ne fd i s.interest j n;
          reading = refl;
          writing = refl;
        })
        (rw (set_at_self fd (some new) s.connections, set_at_self fd i s.interest, free)
          ((refl, refl, r, w), refl))
  accept-AllInPhase false now ip free r w =
      let new = connection fd ip now in
      one-AllInPhase s (accept_one false now fd ip s) fd p
        (λ j n. record {
          conn = set_at_ne fd (some new) s.connections j n;
          armed = refl;
          reading = refl;
          writing = refl;
        })
        (rw (set_at_self fd (some new) s.connections, free) ((refl, refl, r, w), refl))
