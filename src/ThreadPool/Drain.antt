-- ===== src/ThreadPool/Drain.antt =====
-- The tasks of the pool from acceptance to their start, in any order of the steps.
use mini_server.ThreadPool.Trace.{
  taken, taken_by, ended_by, Traced, traced_step, trace, runs, is_gone, IsDrained, IsSound,
}
use mathlib.Core.List.{append-nil, append_assoc}
use mini_server.Prelude.{
  ℕ, zero, suc, ◌≡◌, refl, sym, ◌∙◌, subst, ◌⊎◌, inl, inr, Bool, true, false, Option, none, some,
  List, [], ◌∷◌, ◌++◌, arith, count-append, get_elem?, if◌then◌else◌, sum, sum-append, sum-set,
}
use mini_server.ThreadPool.{
  Worker, waiting, running, exited, Wake, sleeps, leaves, takes, Event, enqueues, stops, works,
  enqueue, request_stop, wake, after_wake, work_as, work, step, thread_pool, start, spawn,
}

abbrev idle_step : Traced → Traced
idle_step s = record s { accepted = s.accepted ++ []; begun = s.begun ++ []; ended = s.ended ++ [] }

-- Nothing happens.
idle-IsSound : (s : Traced) → IsSound s → IsSound (idle_step s)
idle-IsSound s h = simp append-nil h

wake-cases :
    (b : Bool) (ts : List ℕ)
    → ((wake b ts ≡ sleeps) × (b ≡ false) × (ts ≡ []))
      ⊎ (((wake b ts ≡ leaves) × (b ≡ true) × (ts ≡ []))
          ⊎ ((t : ℕ) × (rest : List ℕ) × (wake b ts ≡ takes t rest) × (ts ≡ t ∷ rest)))
unfolding wake
wake-cases false [] = inl (refl, refl, refl)
wake-cases true [] = inr (inl (refl, refl, refl))
wake-cases false (t ∷ ts) = inr (inr (t, ts, refl, refl))
wake-cases true (t ∷ ts) = inr (inr (t, ts, refl, refl))

-- A step of the worker that stands at `o`.
abbrev worked : ℕ → Option Worker → Traced → Traced
worked i o s = record {
  pool = work_as i o s.pool;
  accepted = s.accepted ++ [];
  begun = s.begun ++ taken_by o s.pool;
  ended = s.ended ++ ended_by o;
}

abbrev woken : ℕ → Wake → Traced → Traced
woken i w s = record {
  pool = after_wake i w s.pool;
  accepted = s.accepted ++ [];
  begun = s.begun ++ taken w;
  ended = s.ended ++ [];
}

module _ (i : ℕ) (s : Traced) (h : IsSound s) where
  finishes-IsSound :
      (t : ℕ)
      → get_elem? s.pool.workers i ≡ some (running t)
      → IsSound (worked i (some (running t)) s)
  finishes-IsSound t at = record {
    in_order = simp append-nil h.in_order;
    once = λ a. omega (
      arith,
      h.once a,
      count-append a s.begun [],
      count-append a s.ended (t ∷ []),
      sum-set (runs a) s.pool.workers i (running t) waiting at,
    );
    drained = ground (arith, h.drained, sum-set is_gone s.pool.workers i (running t) waiting at);
  }

  leaves-IsSound :
      get_elem? s.pool.workers i ≡ some waiting → IsDrained s.pool → IsSound (woken i leaves s)
  leaves-IsSound at d = record {
    in_order = simp append-nil h.in_order;
    once = λ a. omega (
      arith,
      h.once a,
      count-append a s.begun [],
      count-append a s.ended [],
      sum-set (runs a) s.pool.workers i waiting exited at,
    );
    drained = inr d;
  }

  takes-IsSound :
      (t : ℕ) (rest : List ℕ)
      → get_elem? s.pool.workers i ≡ some waiting
      → s.pool.tasks ≡ t ∷ rest
      → IsSound (woken i (takes t rest) s)
  takes-IsSound t rest at tasks_are = record {
    in_order = simp (append-nil, append_assoc) (h.in_order ∙ rw tasks_are refl);
    once = λ a. omega (
      arith,
      h.once a,
      count-append a s.begun (t ∷ []),
      count-append a s.ended [],
      sum-set (runs a) s.pool.workers i waiting (running t) at,
    );
    drained = ground (arith, h.drained, sum-set is_gone s.pool.workers i waiting (running t) at);
  }

  wakes-IsSound :
      get_elem? s.pool.workers i ≡ some waiting
      → IsSound (woken i (wake s.pool.stopping s.pool.tasks) s)
  wakes-IsSound at = elim (wake-cases s.pool.stopping s.pool.tasks) [
    | inl (w, b, e) ↦ subst (λ k. IsSound (woken i k s)) (sym w) (idle-IsSound s h)
    | inr (inl (w, b, e)) ↦ subst (λ k. IsSound (woken i k s)) (sym w) (leaves-IsSound at (b, e))
    | inr (inr (t, rest, w, e)) ↦
        subst (λ k. IsSound (woken i k s)) (sym w) (takes-IsSound t rest at e)
  ]

worked-IsSound :
    (i : ℕ) (o : Option Worker) (s : Traced)
    → get_elem? s.pool.workers i ≡ o
    → IsSound s
    → IsSound (worked i o s)
worked-IsSound i none s at h = idle-IsSound s h
worked-IsSound i (some exited) s at h = idle-IsSound s h
worked-IsSound i (some (running t)) s at h = finishes-IsSound i s h t at
worked-IsSound i (some waiting) s at h = wakes-IsSound i s h at

-- A call of `enqueue` that finds `stopping_` to be `b`.
abbrev enqueued : ℕ → Bool → Traced → Traced
enqueued t b s = record {
  pool = if b then s.pool else record s.pool { tasks = s.pool.tasks ++ t ∷ [] };
  accepted = s.accepted ++ (if b then [] else t ∷ []);
  begun = s.begun ++ [];
  ended = s.ended ++ [];
}

enqueued-IsSound :
    (t : ℕ) (b : Bool) (s : Traced) → s.pool.stopping ≡ b → IsSound s → IsSound (enqueued t b s)
enqueued-IsSound t true s b h = idle-IsSound s h
enqueued-IsSound t false s b h = record {
  in_order = simp append-nil (rw h.in_order (append_assoc s.begun s.pool.tasks (t ∷ [])));
  once = λ a. omega (arith, h.once a, count-append a s.begun [], count-append a s.ended []);
  drained = elim h.drained [ inl z ↦ inl z | inr d ↦ cc (b, d.0) ];
}

-- The flag of `stop` is set.
stopped-IsSound :
    (s : Traced)
    → IsSound s
    → IsSound (record (idle_step s) { pool = record s.pool { stopping = true } })
stopped-IsSound s h = record {
  in_order = simp append-nil h.in_order;
  once = λ a. omega (arith, h.once a, count-append a s.begun [], count-append a s.ended []);
  drained = elim h.drained [ inl z ↦ inl z | inr d ↦ inr (refl, d.1) ];
}

traced_step-IsSound : (s : Traced) (e : Event) → IsSound s → IsSound (traced_step s e)
unfolding step enqueue work request_stop
traced_step-IsSound s (enqueues t) h = enqueued-IsSound t s.pool.stopping s refl h
traced_step-IsSound s stops h = stopped-IsSound s h
traced_step-IsSound s (works i) h = worked-IsSound i (get_elem? s.pool.workers i) s refl h

trace-IsSound : (s : Traced) (es : List Event) → IsSound s → IsSound (trace s es)
unfolding trace
trace-IsSound s [] h = h
trace-IsSound s (e ∷ es) h = trace-IsSound (traced_step s e) es (traced_step-IsSound s e h)

-- The pool after `start`, with no history.
abbrev pub started : ℕ → Traced
started n = record { pool = start (thread_pool n); accepted = []; begun = []; ended = [] }

-- Fresh workers weigh nothing.
sum-spawn :
    (weight : Worker → ℕ) (n : ℕ) (ws : List Worker)
    → weight waiting ≡ 0
    → sum weight (spawn n ws) ≡ sum weight ws
sum-spawn weight zero ws z = refl
sum-spawn weight (suc n) ws z =
    sum-spawn weight n (ws ++ waiting ∷ []) z
    ∙ omega (arith, z, sum-append weight ws (waiting ∷ []))

started-IsSound : (n : ℕ) → IsSound (started n)
unfolding start
started-IsSound n = record {
  in_order = refl;
  once = λ a. omega (arith, sum-spawn (runs a) n [] refl);
  drained = inl (sum-spawn is_gone n [] refl);
}

-- After any interleaving of calls, stops and workers' steps: the tasks that were accepted are those
-- that were begun, in that order, and then those in the queue; each begun task has ended or is being
-- run, as often as it was begun; and once a worker has returned, the queue is empty and stays so.
pub trace-started-IsSound : (n : ℕ) (es : List Event) → IsSound (trace (started n) es)
trace-started-IsSound n es = trace-IsSound (started n) es (started-IsSound n)
