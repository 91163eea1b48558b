-- ===== src/HttpServer/Threads/Attended/Arriving.antt =====
-- What the event loop turns to from its wait, and the connections of the table behind it.
use mini_server.Prelude.{
  ℕ, ◌<◌, ◌≡◌, refl, ap, subst, ◌≢◌, inl, inr, true, none, List, [], ◌∷◌, arith, ==-refl, count,
  some_eq,
}
use mini_server.Epoller.{Interest, absent, disarmed, readable_once, writable_once}
use mini_server.TimerHeap.{pop_expired}
use mini_server.HttpServer.{reads, writes}
use mini_server.HttpServer.Phases.{set_at_self}
use mini_server.HttpServer.Threads.{Shared}
use mini_server.HttpServer.Threads.Ownership.{IsSafe}
use mini_server.HttpServer.Threads.System.{
  System, Loop, waiting, looking, registering, closing_each, Arrival, accepts, hangs_up,
  is_readable, is_writable, sweeps, fails, loops, disarm, hung_up, readable, writable, arrive,
}
use mini_server.HttpServer.Threads.Local.{OnlyAt-refl, only_interest-OnlyAt}
use mini_server.HttpServer.Threads.Attended.{
  to_close, removed_by, registers, IsHeld, by_kernel, by_queue, by_loop, by_closing, by_worker,
  IsAttended,
}
use mini_server.HttpServer.Threads.Attended.Turns.{turn-IsAttended}

module _ (s : System) (a : IsAttended s) where
  abbrev pub Keeps : Loop × Shared → Type 0
  Keeps (l, t) = IsAttended (record s { shared = t; loop = l })

  -- What stands at the wait has no descriptor of the loop.
  waited : s.loop ≡ waiting → (fd : ℕ) → s.shared.table fd ≡ true → s.shared.interest fd ≢ absent
  waited e fd there = elim (a.registered fd there) [
    | inl known ↦ known
    | inr new ↦ cc (rw e at new)
  ]

  -- Nothing is closed or registered from the wait, or from a dispatch.
  pub not_closing : to_close s.loop ≡ [] → (k : ℕ) → 0 < count k (to_close s.loop) → ⊥
  not_closing e k some_left = let n = ap (count k) e in omega arith

  -- A reported descriptor is closed, or dispatched.
  reported :
      (fd : ℕ) (l : Loop)
      → s.loop ≡ waiting
      → IsHeld (record s { shared = disarm fd s.shared; loop = l }) fd
      → removed_by l ≡ none
      → registers l ≡ none
      → Keeps (l, disarm fd s.shared)
  reported fd l e has off new =
      turn-IsAttended s a fd l (disarm fd s.shared) (only_interest-OnlyAt fd disarmed s.shared)
        (record {
          still_open = a.is_open fd;
          still_there =
              λ there. inl (λ x. cc (rw (set_at_self fd disarmed s.shared.interest) at x));
          has = λ there. has;
          fit = λ w here. a.fits w;
          other_table = λ j n. refl;
          was_at = λ k x. cc (rw e at x);
          rest = λ k n more. absurd (not_closing (rw e refl) k more);
          off = λ k x. cc (off, x);
          new = λ k x. cc (new, x);
        })

  -- The loop turns elsewhere, with nothing changed.
  waits : s.loop ≡ waiting → Keeps (waiting, s.shared)
  waits e = subst (λ l. Keeps (l, s.shared)) e a

  hung_up-Keeps : (i : Interest) (fd : ℕ) → s.loop ≡ waiting → Keeps (hung_up i fd s.shared)
  hung_up-Keeps absent fd e = waits e
  hung_up-Keeps disarmed fd e = waits e
  hung_up-Keeps readable_once fd e =
      reported fd (closing_each (fd ∷ [])) e
        (by_closing (let own = ==-refl fd in rw own (omega arith))) refl refl
  hung_up-Keeps writable_once fd e =
      reported fd (closing_each (fd ∷ [])) e
        (by_closing (let own = ==-refl fd in rw own (omega arith))) refl refl

  readable-Keeps : (i : Interest) (fd : ℕ) → s.loop ≡ waiting → Keeps (readable i fd s.shared)
  readable-Keeps absent fd e = waits e
  readable-Keeps disarmed fd e = waits e
  readable-Keeps writable_once fd e = waits e
  readable-Keeps readable_once fd e = reported fd (looking (reads fd)) e (by_loop refl) refl refl

  writable-Keeps : (i : Interest) (fd : ℕ) → s.loop ≡ waiting → Keeps (writable i fd s.shared)
  writable-Keeps absent fd e = waits e
  writable-Keeps disarmed fd e = waits e
  writable-Keeps readable_once fd e = waits e
  writable-Keeps writable_once fd e = reported fd (looking (writes fd)) e (by_loop refl) refl refl

  -- The sweep holds what it closes besides what held it before.
  swept_held :
      (t : Shared) (fds : List ℕ) (k : ℕ)
      → s.loop ≡ waiting
      → t.interest ≡ s.shared.interest
      → t.tasks ≡ s.shared.tasks
      → IsHeld s k
      → IsHeld (record s { shared = t; loop = closing_each fds }) k
  swept_held t fds k e i q (by_kernel armed) = by_kernel (rw i armed)
  swept_held t fds k e i q (by_queue some_task) = by_queue (rw q some_task)
  swept_held t fds k e i q (by_loop x) = cc (rw e at x)
  swept_held t fds k e i q (by_closing x) = absurd (not_closing (rw e refl) k x)
  swept_held t fds k e i q (by_worker w x) = by_worker w x

  pub arrive-Keeps :
      (now : ℕ) (x : Arrival)
      → s.loop ≡ waiting
      → IsSafe s (loops now x)
      → Keeps (arrive now x s.shared)
  arrive-Keeps now (accepts fd ip) e (free, no_task, no_worker) =
      turn-IsAttended s a fd (registering fd ip) s.shared (OnlyAt-refl fd s.shared) (record {
        still_open = a.is_open fd;
        still_there = λ there. inr refl;
        has = λ there. by_loop refl;
        fit = λ w here. a.fits w;
        other_table = λ j n. refl;
        was_at = λ k x. cc (rw e at x);
        rest = λ k n more. absurd (not_closing (rw e refl) k more);
        off = λ k x. cc x;
        new = λ k x. rw (← some_eq x) free;
      })
  arrive-Keeps now (hangs_up fd) e f = hung_up-Keeps (s.shared.interest fd) fd e
  arrive-Keeps now (is_readable fd) e f = readable-Keeps (s.shared.interest fd) fd e
  arrive-Keeps now (is_writable fd) e f = writable-Keeps (s.shared.interest fd) fd e
  arrive-Keeps now fails e f = waits e
  arrive-Keeps now sweeps e f =
      let swept = pop_expired now s.shared.timers in
      record {
        is_open = a.is_open;
        registered = λ fd there. inl (waited e fd there);
        fits = a.fits;
        removed = λ fd x. cc x;
        unregistered = λ fd x. cc x;
        held = λ fd there.
            swept_held (record s.shared { timers = swept.timers }) swept.expired fd e refl refl
              (a.held fd there);
      }
