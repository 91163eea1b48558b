-- ===== src/HttpServer/Phases/Dispatching.antt =====
-- `dispatchRead` and `dispatchWrite`, and the phases before and behind them.
use mini_server.Prelude.{
  ℕ, ◌<◌, ◌≡◌, refl, ap, ◌∙◌, ◌≢◌, inl, inr, Bool, true, false, not, ◌&&◌, none, some, [], ◌∷◌,
  ◌++◌, arith, ==-refl, if◌then◌else◌, sum, sum-append,
}
use mini_server.Connection.{Connection, set_processing}
use mini_server.Connection.Sending.{remaining, IsSending}
use mini_server.Epoller.{Interest, absent, disarmed, readable_once, writable_once}
use mini_server.HttpServer.{
  HttpServer, Task, reads, writes, put_connection, close_connection, begin_processing,
  dispatch_begun, dispatch,
}
use mini_server.HttpServer.Steps.{disarm, read_tasks, write_tasks}
use mini_server.HttpServer.Phases.{
  Phase, InPhase, AllInPhase, SameAt, SameAt-trans, one-AllInPhase, set_at_self, set_at_ne,
}
use mini_server.HttpServer.Phases.Closing.{close-InPhase, close-SameAt}

if_neither {ℓ} :
    {A : Type ℓ} (a b : Bool) (x y : A)
    → a ≡ false
    → b ≡ false
    → (if not a && not b then x else y) ≡ x
if_neither true b x y h k = cc
if_neither false true x y h k = cc
if_neither false false x y h k = refl

pub begins :
    (c : Connection)
    → c.closed ≡ false
    → c.processing ≡ false
    → begin_processing c ≡ some (set_processing true c)
unfolding begin_processing
begins c h k = if_neither c.closed c.processing (some (set_processing true c)) none h k

module _ (fd : ℕ) (s : HttpServer) where
  disarm-SameAt : (j : ℕ) → fd ≢ j → SameAt s (disarm fd s) j
  disarm-SameAt j n = record {
    conn = refl;
    armed = set_at_ne fd disarmed s.interest j n;
    reading = refl;
    writing = refl;
  }

  -- With a connection, `closeConnection` puts any descriptor in phase.
  pub hang_up-AllInPhase :
      AllInPhase s
      → (c : Connection) → s.connections fd ≡ some c
      → AllInPhase (close_connection fd (disarm fd s))
  hang_up-AllInPhase p c at =
      one-AllInPhase s (close_connection fd (disarm fd s)) fd p
        (λ j n.
          SameAt-trans s (disarm fd s) _ j (disarm-SameAt j n) (close-SameAt fd (disarm fd s) j n))
        (close-InPhase fd (disarm fd s) c at)

  pub dispatch-resting :
      (t : Task) (c : Connection)
      → s.connections fd ≡ some c
      → c.closed ≡ false
      → c.processing ≡ false
      → dispatch fd t s
        ≡ record (put_connection fd (set_processing true c) s) { tasks = s.tasks ++ t ∷ [] }
  unfolding dispatch
  dispatch-resting t c at open_now idle =
      rw (at, dispatch) (ap (λ o. dispatch_begun fd t o s) (begins c open_now idle))

pub held_read :
    (c : Connection) (i : Interest) (r w : ℕ)
    → Phase (some c) i r w
    → 0 < r
    → (i ≡ disarmed) × (c.closed ≡ false) × (r ≡ 1) × (w ≡ 0) × (remaining c ≡ [])
held_read c absent r w ((a, b, z, y), e) h = absurd (omega arith)
held_read c disarmed r w (t, inl (a, b, e)) h = (refl, t.0, a, b, e)
held_read c disarmed r w (t, inr (a, b, e)) h = absurd (omega arith)
held_read c readable_once r w ((a, b, z, y), e) h = absurd (omega arith)
held_read c writable_once r w ((a, b, z, y), e) h = absurd (omega arith)

pub held_write :
    (c : Connection) (i : Interest) (r w : ℕ)
    → Phase (some c) i r w
    → 0 < w
    → (i ≡ disarmed) × (c.closed ≡ false) × (r ≡ 0) × (w ≡ 1) × IsSending c
held_write c absent r w ((a, b, z, y), e) h = absurd (omega arith)
held_write c disarmed r w (t, inr (a, b, e)) h = (refl, t.0, a, b, e)
held_write c disarmed r w (t, inl (a, b, e)) h = absurd (omega arith)
held_write c readable_once r w ((a, b, z, y), e) h = absurd (omega arith)
held_write c writable_once r w ((a, b, z, y), e) h = absurd (omega arith)

-- Without a connection the tasks do not matter.
pub Phase-none : (i : Interest) (r w r' w' : ℕ) → Phase none i r w → Phase none i r' w'
Phase-none absent r w r' w' p = tt
Phase-none disarmed r w r' w' p = p
Phase-none readable_once r w r' w' p = p
Phase-none writable_once r w r' w' p = p

module _ (fd : ℕ) (s : HttpServer) where
  -- The state after the dispatch of a task for the connection `c` that was armed.
  abbrev pub handed : Task → Connection → HttpServer
  handed t c = record (put_connection fd (set_processing true c) (disarm fd s)) {
    tasks = s.tasks ++ t ∷ [];
  }

  pub handed-SameAt :
      (t : Task) (c : Connection) (j : ℕ)
      → fd ≢ j
      → read_tasks j t ≡ 0
      → write_tasks j t ≡ 0
      → SameAt s (handed t c) j
  handed-SameAt t c j n r w = record {
    conn = set_at_ne fd (some (set_processing true c)) s.connections j n;
    armed = set_at_ne fd disarmed s.interest j n;
    reading = sum-append (read_tasks j) s.tasks (t ∷ []) ∙ omega arith;
    writing = sum-append (write_tasks j) s.tasks (t ∷ []) ∙ omega arith;
  }

  handed-InPhase :
      (t : Task) (c : Connection)
      → Phase
          (some (set_processing true c))
          disarmed
          (sum (read_tasks fd) (s.tasks ++ t ∷ []))
          (sum (write_tasks fd) (s.tasks ++ t ∷ []))
      → InPhase (handed t c) fd
  handed-InPhase t c p =
      rw
        (
          set_at_self fd (some (set_processing true c)) s.connections,
          set_at_self fd disarmed s.interest,
        )
        p

  pub handed_read :
      (c : Connection)
      → Phase (some c) readable_once (sum (read_tasks fd) s.tasks) (sum (write_tasks fd) s.tasks)
      → InPhase (handed (reads fd) c) fd
  unfolding remaining
  handed_read c ((open_now, idle, r, w), e) =
      let one = ==-refl fd in
      handed-InPhase (reads fd) c (
        (open_now, refl),
        inl (
          sum-append (read_tasks fd) s.tasks (reads fd ∷ []) ∙ rw (one, r) refl,
          sum-append (write_tasks fd) s.tasks (reads fd ∷ []) ∙ rw w refl,
          e,
        ),
      )

  pub handed_write :
      (c : Connection)
      → Phase (some c) writable_once (sum (read_tasks fd) s.tasks) (sum (write_tasks fd) s.tasks)
      → InPhase (handed (writes fd) c) fd
  handed_write c ((open_now, idle, r, w), e) =
      let one = ==-refl fd in
      handed-InPhase (writes fd) c (
        (open_now, refl),
        inr (
          sum-append (read_tasks fd) s.tasks (writes fd ∷ []) ∙ rw r refl,
          sum-append (write_tasks fd) s.tasks (writes fd ∷ []) ∙ rw (one, w) refl,
          record { header_fits = e.header_fits; file_fits = e.file_fits; in_order = e.in_order },
        ),
      )
