-- ===== src/HttpServer/Threads/Attended/Dispatching.antt =====
-- `dispatchRead` and `dispatchWrite` up to `beginProcessing`, and the connections of the table behind
-- them.
use mini_server.Prelude.{
  ℕ, ◌<◌, ◌≡◌, refl, sym, ap, ◌∙◌, subst, ◌≢◌, inl, inr, true, false, none, some, [], Bool-cases,
  Option-cases, count, if◌then◌else◌, some_eq,
}
use mini_server.Connection.{set_processing}
use mini_server.HttpServer.{Task, begin_processing}
use mini_server.HttpServer.Phases.{set_at_self}
use mini_server.HttpServer.Phases.Dispatching.{begins}
use mini_server.HttpServer.Threads.{Shared, set_object}
use mini_server.HttpServer.Threads.System.{
  System, Loop, waiting, looking, beginning, enqueueing, task_fd, begin_task,
}
use mini_server.HttpServer.Threads.Ownership.{Owner, loop_at, IsLoop, IsOwned, OnlyAt}
use mini_server.HttpServer.Threads.Local.{OnlyAt-refl, object-OnlyAt}
use mini_server.HttpServer.Threads.Safety.{armed_for-rests}
use mini_server.HttpServer.Threads.Attended.{to_close, removed_by, registers, by_loop, IsAttended}
use mini_server.HttpServer.Threads.Attended.Turns.{turn-IsAttended, out-TurnsAttended}
use mini_server.HttpServer.Threads.Attended.Arriving.{Keeps, not_closing}

module _ (owner : ℕ → Owner) (s : System) (h : IsOwned owner s) (a : IsAttended s) where
  -- A dispatch goes on, with the connection it is for.
  pub dispatching :
      (fd : ℕ) (l m : Loop) (t : Shared)
      → s.loop ≡ l
      → loop_at l ≡ some fd
      → to_close l ≡ []
      → registers l ≡ none
      → loop_at m ≡ some fd
      → removed_by m ≡ none
      → registers m ≡ none
      → OnlyAt fd s.shared t
      → t.table ≡ s.shared.table
      → t.interest ≡ s.shared.interest
      → (t.objects fd).closed ≡ (s.shared.objects fd).closed
      → Keeps s a (m, t)
  dispatching fd l m t e here quiet known goes off new only table interest same =
      turn-IsAttended s a fd m t only (record {
        still_open = λ x. same ∙ a.is_open fd (ap (λ f. f fd) (sym table) ∙ x);
        still_there = λ x. inl (elim (a.registered fd (ap (λ f. f fd) (sym table) ∙ x)) [
          | inl there ↦ λ y. there (ap (λ f. f fd) (sym interest) ∙ y)
          | inr new_one ↦ cc (known, rw e at new_one)
        ]);
        has = λ x. by_loop goes;
        fit = λ w x. rw table (a.fits w);
        other_table = λ j n. ap (λ f. f j) table;
        was_at = λ k x. some_eq (sym here ∙ (rw e at x));
        rest = λ k n more. absurd (not_closing s a (ap to_close e ∙ quiet) k more);
        off = λ k x. cc (off, x);
        new = λ k x. cc (new, x);
      })

  -- The loop drops a descriptor that is out of the table.
  pub drops :
      (fd : ℕ) (l m : Loop) (t : Shared)
      → s.loop ≡ l
      → t.table ≡ s.shared.table
      → s.shared.table fd ≡ false
      → ((k : ℕ) → loop_at l ≡ some k → fd ≡ k)
      → ((k : ℕ) → fd ≢ k → 0 < count k (to_close l) → 0 < count k (to_close m))
      → ((k : ℕ) → removed_by m ≡ some k → fd ≡ k)
      → registers m ≡ none
      → OnlyAt fd s.shared t
      → Keeps s a (m, t)
  drops fd l m t e table out here rest off new only = turn-IsAttended s a fd m t only (
      out-TurnsAttended fd s m t (ap (λ f. f fd) table ∙ out) (λ w x. rw table (a.fits w))
        (λ j n. ap (λ f. f j) table) (λ k x. here k (rw e at x))
        (λ k n more. rest k n (rw e at more)) (λ k x. ap (λ f. f k) table ∙ rw (← off k x) out) new)

  pub looking-Keeps :
      (t : Task)
      → s.loop ≡ looking t
      → Keeps s a (if s.shared.table (task_fd t) then beginning t else waiting, s.shared)
  looking-Keeps t e = elim (Bool-cases (s.shared.table (task_fd t))) [
    | inl there ↦ rw there (
        dispatching (task_fd t) (looking t) (beginning t) s.shared e refl refl refl refl refl refl
          (OnlyAt-refl (task_fd t) s.shared) refl refl refl)
    | inr out ↦ rw out (
        drops (task_fd t) (looking t) waiting s.shared e refl out (λ k x. some_eq x)
          (λ k n more. more) (λ k x. cc x) refl (OnlyAt-refl (task_fd t) s.shared))
  ]

  -- `beginProcessing` fails only for a connection that is out of the table.
  pub begin_task-Keeps :
      (t : Task)
      → s.loop ≡ beginning t
      → Keeps s a (begin_task (begin_processing (s.shared.objects (task_fd t))) t s.shared)
  begin_task-Keeps t e =
      let fd = task_fd t in
      let c = s.shared.objects fd in
      elim (Bool-cases (s.shared.table fd)) [
        | inl there ↦
            let open_now = a.is_open fd there in
            let rested =
              armed_for-rests t c (subst (λ l. IsLoop l s.shared.objects) e h.loop_ok) open_now in
            subst (λ x. Keeps s a (begin_task x t s.shared)) (sym (begins c open_now rested))
              (dispatching fd (beginning t) (enqueueing t)
                (set_object fd (set_processing true c) s.shared) e refl refl refl refl refl refl
                (object-OnlyAt fd (set_processing true c) s.shared) refl refl
                (rw (set_at_self fd (set_processing true c) s.shared.objects) refl))
        | inr out ↦ elim (Option-cases (begin_processing c)) [
          | inl none_begun ↦ rw none_begun (
              drops fd (beginning t) waiting s.shared e refl out (λ k x. some_eq x)
                (λ k n more. more) (λ k x. cc x) refl (OnlyAt-refl fd s.shared))
          | inr (d, begun_as) ↦ rw begun_as (
              drops fd (beginning t) (enqueueing t) (set_object fd d s.shared) e refl out
                (λ k x. some_eq x) (λ k n more. more) (λ k x. cc x) refl
                (object-OnlyAt fd d s.shared))
        ]
      ]
