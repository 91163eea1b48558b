-- ===== src/HttpServer/Threads/Attended/Closing.antt =====
-- The loop's calls of `closeConnection`, and the other connections.
use mini_server.Prelude.{
  ℕ, ◌<◌, ◌≡◌, refl, ◌≢◌, inl, inr, false, List, [], ◌∷◌, arith, Bool-cases, count, ne→==, one_if,
  some_eq, ◌==◌,
}
use mini_server.Connection.{mark_closed}
use mini_server.Epoller.{absent}
use mini_server.HttpServer.Phases.{set_at_self, set_at_ne}
use mini_server.HttpServer.Threads.{set_object, forget, unregister}
use mini_server.HttpServer.Threads.System.{
  System, waiting, closing_each, marking_first, deleting_first, shutting_first, close_next,
}
use mini_server.HttpServer.Threads.Ownership.{Owner, IsOwned}
use mini_server.HttpServer.Threads.Local.{
  OnlyAt-refl, object-OnlyAt, only_interest-OnlyAt, aside-OnlyAt,
}
use mini_server.HttpServer.Threads.Attended.{
  IsHeld, by_kernel, by_queue, by_loop, by_closing, by_worker, IsAttended,
}
use mini_server.HttpServer.Threads.Attended.Turns.{
  turn-IsAttended, out-TurnsAttended, WorkerFits-out,
}
use mini_server.HttpServer.Threads.Attended.Arriving.{Keeps}
use mini_server.HttpServer.Threads.Attended.Dispatching.{drops}

count_later : (k fd : ℕ) (fds : List ℕ) → fd ≢ k → 0 < count k (fd ∷ fds) → 0 < count k fds
count_later k fd fds n more =
    let other = ne→== fd k n in
    let zero_here : one_if (fd == k) ≡ 0 = rw other refl in omega (arith, zero_here)

module _ (owner : ℕ → Owner) (s : System) (h : IsOwned owner s) (a : IsAttended s) where
  done_held :
      (k : ℕ) → s.loop ≡ closing_each [] → IsHeld s k → IsHeld (record s { loop = waiting }) k
  done_held k e (by_kernel armed) = by_kernel armed
  done_held k e (by_queue some_task) = by_queue some_task
  done_held k e (by_loop x) = cc (rw e at x)
  done_held k e (by_closing x) = let y : 0 < count k [] = rw e at x in absurd (omega (arith, y))
  done_held k e (by_worker w x) = by_worker w x

  pub close_next-Keeps :
      (fds : List ℕ) → s.loop ≡ closing_each fds → Keeps s a (close_next fds s.shared)
  close_next-Keeps [] e = record {
    is_open = a.is_open;
    registered = λ k there. elim (a.registered k there) [
      | inl known ↦ inl known
      | inr new_one ↦ cc (rw e at new_one)
    ];
    fits = a.fits;
    removed = λ k x. cc x;
    unregistered = λ k x. cc x;
    held = λ k there. done_held k e (a.held k there);
  }
  close_next-Keeps (fd ∷ fds) e = elim (Bool-cases (s.shared.table fd)) [
    | inl there ↦ rw there (
        let out = set_at_self fd false s.shared.table in
        turn-IsAttended s a fd (marking_first fd fds) (forget fd s.shared)
          (aside-OnlyAt fd s.shared (forget fd s.shared) refl refl refl)
          (out-TurnsAttended fd s (marking_first fd fds) (forget fd s.shared) out
            (λ w here. WorkerFits-out (s.workers w) s.shared.table _ fd here out (a.fits w))
            (set_at_ne fd false s.shared.table) (λ k x. cc (rw e at x))
            (λ k n more. count_later k fd fds n (rw e at more)) (λ k x. rw (← some_eq x) out) refl))
    | inr gone ↦ rw gone (
        drops owner s h a fd (closing_each (fd ∷ fds)) (closing_each fds) s.shared e refl gone
          (λ k x. cc x) (λ k n more. count_later k fd fds n more) (λ k x. cc x) refl
          (OnlyAt-refl fd s.shared))
  ]

  -- The rest of `closeConnection`, for a descriptor that the loop has taken out of the table.
  pub marking-Keeps :
      (fd : ℕ) (fds : List ℕ)
      → s.loop ≡ marking_first fd fds
      → Keeps s a
          (deleting_first fd fds, set_object fd (mark_closed (s.shared.objects fd)) s.shared)
  marking-Keeps fd fds e =
      drops owner s h a fd (marking_first fd fds) (deleting_first fd fds) _ e refl
        (a.removed fd (rw e refl)) (λ k x. cc x) (λ k n more. more) (λ k x. some_eq x) refl
        (object-OnlyAt fd _ s.shared)

  pub deleting-Keeps :
      (fd : ℕ) (fds : List ℕ)
      → s.loop ≡ deleting_first fd fds
      → Keeps s a (shutting_first fd fds, unregister fd s.shared)
  deleting-Keeps fd fds e =
      drops owner s h a fd (deleting_first fd fds) (shutting_first fd fds) _ e refl
        (a.removed fd (rw e refl)) (λ k x. cc x) (λ k n more. more) (λ k x. some_eq x) refl
        (only_interest-OnlyAt fd absent s.shared)

  pub shutting-Keeps :
      (fd : ℕ) (fds : List ℕ)
      → s.loop ≡ shutting_first fd fds
      → Keeps s a (closing_each fds, s.shared)
  shutting-Keeps fd fds e =
      drops owner s h a fd (shutting_first fd fds) (closing_each fds) s.shared e refl
        (a.removed fd (rw e refl)) (λ k x. cc x) (λ k n more. more) (λ k x. cc x) refl
        (OnlyAt-refl fd s.shared)
