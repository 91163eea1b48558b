-- ===== src/HttpServer/Threads/Attended/Leaving.antt =====
-- What a step of a worker may do to the connection of its descriptor: it stays, it goes, or it arms.
use mini_server.Prelude.{
  ℕ, ◌≡◌, refl, sym, ap, ◌∙◌, subst, ◌≢◌, inl, inr, Bool, true, false, Bool-cases,
}
use mini_server.Connection.{Connection}
use mini_server.Epoller.{
  Interest, absent, disarmed, readable_once, writable_once, set_at, modified, epoll_mod,
}
use mini_server.HttpServer.Phases.{set_at_self}
use mini_server.HttpServer.Threads.{
  Stage, Worker, idle, at, Shared, goes_on, set_interest, set_object,
}
use mini_server.HttpServer.Threads.Ownership.{is_armed}
use mini_server.HttpServer.Threads.Attended.{Fits, LeavesAttended}

modified-armed :
    (wanted i : Interest)
    → is_armed wanted ≡ true
    → i ≢ absent
    → is_armed (modified wanted i) ≡ true
modified-armed wanted absent h n = absurd (n refl)
modified-armed wanted disarmed h n = h
modified-armed wanted readable_once h n = h
modified-armed wanted writable_once h n = h

armed_there : (i : Interest) → is_armed i ≡ true → i ≢ absent
armed_there absent h e = cc h
armed_there disarmed h e = cc h
armed_there readable_once h e = cc e
armed_there writable_once h e = cc e

module _ (fd : ℕ) (s : Shared) (is_open : s.table fd ≡ true → (s.objects fd).closed ≡ false)
    (there : s.table fd ≡ true → s.interest fd ≢ absent) where
  abbrev pub Leaves : Worker × Shared → Type 0
  Leaves (p, t) = LeavesAttended fd p s t

  -- The worker stays, and at most the connection's bytes and flags and the timers change.
  pub stays :
      (stage : Stage) (t : Shared)
      → t.table ≡ s.table
      → t.interest ≡ s.interest
      → (t.objects fd).closed ≡ (s.objects fd).closed
      → Fits stage (t.table fd)
      → Leaves (at fd stage, t)
  stays stage t table interest same fit = record {
    still_open = λ e. same ∙ is_open (ap (λ f. f fd) (sym table) ∙ e);
    still_there = λ e x. there (ap (λ f. f fd) (sym table) ∙ e) (ap (λ f. f fd) (sym interest) ∙ x);
    has = λ e. inl refl;
    fit = fit;
    was_there = λ e. ap (λ f. f fd) (sym table) ∙ e;
    other_table = λ j n. ap (λ f. f j) table;
  }

  pub writes_object :
      (stage : Stage) (c : Connection)
      → c.closed ≡ (s.objects fd).closed
      → Fits stage (s.table fd)
      → Leaves (at fd stage, set_object fd c s)
  writes_object stage c same fit =
      stays stage (set_object fd c s) refl refl (rw (set_at_self fd c s.objects) same) fit

  -- The worker goes: the descriptor is out of the table.
  pub gone : (t : Shared) → t.table ≡ s.table → s.table fd ≡ false → Leaves (idle, t)
  gone t table out =
      let never : t.table fd ≡ false = ap (λ f. f fd) table ∙ out in
      record {
        still_open = λ e. cc (e, never);
        still_there = λ e. cc (e, never);
        has = λ e. cc (e, never);
        fit = tt;
        was_there = λ e. ap (λ f. f fd) (sym table) ∙ e;
        other_table = λ j n. ap (λ f. f j) table;
      }

  pub goes :
      (stage : Stage) → ((b : Bool) → Fits stage b) → Leaves (goes_on (s.table fd) fd stage, s)
  goes stage fit = elim (Bool-cases (s.table fd)) [
    | inl here ↦
        subst (λ b. Leaves (goes_on b fd stage, s)) (sym here)
          (stays stage s refl refl refl (fit (s.table fd)))
    | inr out ↦ subst (λ b. Leaves (goes_on b fd stage, s)) (sym out) (gone s refl out)
  ]

  -- The worker arms the descriptor and goes.
  pub arms :
      (wanted : Interest) (t : Shared)
      → is_armed wanted ≡ true
      → t.table ≡ s.table
      → t.interest ≡ s.interest
      → (t.objects fd).closed ≡ (s.objects fd).closed
      → Leaves (idle, set_interest fd wanted t)
  unfolding epoll_mod
  arms wanted t armed table interest same =
      let i : set_at fd (modified wanted (t.interest fd)) t.interest fd
          ≡ modified wanted (t.interest fd) =
        set_at_self fd (modified wanted (t.interest fd)) t.interest in
      let now_armed : t.table fd ≡ true → is_armed (modified wanted (t.interest fd)) ≡ true = λ e.
        modified-armed wanted (t.interest fd) armed
          (λ x. there (ap (λ f. f fd) (sym table) ∙ e) (ap (λ f. f fd) (sym interest) ∙ x)) in
      record {
        still_open = λ e. same ∙ is_open (ap (λ f. f fd) (sym table) ∙ e);
        still_there = λ e. rw i (armed_there (modified wanted (t.interest fd)) (now_armed e));
        has = λ e. inr (ap is_armed i ∙ now_armed e);
        fit = tt;
        was_there = λ e. ap (λ f. f fd) (sym table) ∙ e;
        other_table = λ j n. ap (λ f. f j) table;
      }

  -- A step on a descriptor that is out of the table.
  pub removed :
      (stage : Stage) (t : Shared)
      → t.table ≡ s.table
      → s.table fd ≡ false
      → Fits stage (t.table fd)
      → Leaves (at fd stage, t)
  removed stage t table out fit =
      let never : t.table fd ≡ false = ap (λ f. f fd) table ∙ out in
      record {
        still_open = λ e. cc (e, never);
        still_there = λ e. cc (e, never);
        has = λ e. cc (e, never);
        fit = fit;
        was_there = λ e. cc (e, never);
        other_table = λ j n. ap (λ f. f j) table;
      }
