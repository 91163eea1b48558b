-- ===== src/ThreadPool/Join.antt =====
-- `ThreadPool::stop`: the joins, and the tasks that have been run by then.
use mini_server.Prelude.{
  ℕ, zero, suc, ◌+◌, ◌*◌, ◌≤◌, ◌<◌, ◌≡◌, refl, sym, ap, ◌∙◌, subst, ◌≢◌, inl, inr, true, false,
  Option, none, some, List, [], ◌∷◌, ◌++◌, arith, Bool-cases, count, count-append, get_elem?,
  length, length-append, length-set, sum, sum-set,
}
use mini_server.ThreadPool.{
  ThreadPool, Worker, waiting, running, exited, Wake, sleeps, leaves, takes, Event, enqueues, stops,
  works, step, enqueue, request_stop, start, spawn, wake, after_wake, work_as, work, all_exited,
  join_all,
}
use mini_server.ThreadPool.Drain.{started, trace-started-IsSound}
use mini_server.ThreadPool.Trace.{Traced, IsSound, runs, is_gone, trace, traced_step}

-- The steps that the workers still have to take: two for a task in the queue, one more for a task
-- being run than for a worker at the wait.
abbrev steps_of : Worker → ℕ
steps_of waiting = 1
steps_of (running t) = 2
steps_of exited = 0

abbrev pub work_left : ThreadPool → ℕ
work_left p = 2 * length p.tasks + sum steps_of p.workers

wake-stopping :
    (i : ℕ) (p : ThreadPool) (ts : List ℕ)
    → get_elem? p.workers i ≡ some waiting
    → p.tasks ≡ ts
    → let q = after_wake i (wake true ts) p in
      (work_left q < work_left p) × (q.stopping ≡ p.stopping)
unfolding wake
wake-stopping i p [] at e = (omega (arith, sum-set steps_of p.workers i waiting exited at), refl)
wake-stopping i p (t ∷ ts) at e =
    (omega (arith, sum-set steps_of p.workers i waiting (running t) at, ap length e), refl)

work_as-stopping :
    (i : ℕ) (p : ThreadPool) (w : Worker)
    → p.stopping ≡ true
    → get_elem? p.workers i ≡ some w
    → 0 < steps_of w
    → let q = work_as i (some w) p in (work_left q < work_left p) × (q.stopping ≡ true)
work_as-stopping i p waiting s at live =
    let (less, same) = wake-stopping i p p.tasks at refl in
    subst
      (λ b.
        let q = after_wake i (wake b p.tasks) p in
        (work_left q < work_left p) × (q.stopping ≡ true))
      (sym s) (less, same ∙ s)
work_as-stopping i p (running t) s at live =
    (omega (arith, sum-set steps_of p.workers i (running t) waiting at), s)
work_as-stopping i p exited s at live = absurd (omega arith)

-- Once `stop` has set its flag, any step of a worker that has not returned brings the pool nearer to
-- the end, in any order of the workers.
pub work-work_left :
    (i : ℕ) (p : ThreadPool) (w : Worker)
    → p.stopping ≡ true
    → get_elem? p.workers i ≡ some w
    → w ≢ exited
    → (work_left (work i p) < work_left p) × ((work i p).stopping ≡ true)
unfolding work
work-work_left i p w s at live =
    subst (λ o. let q = work_as i o p in (work_left q < work_left p) × (q.stopping ≡ true)) (sym at)
      (work_as-stopping i p w s at (live_steps w live))
  where
    live_steps : (w : Worker) → w ≢ exited → 0 < steps_of w
    live_steps waiting h = omega arith
    live_steps (running t) h = omega arith
    live_steps exited h = absurd (h refl)

-- A worker that has not returned.
find_live :
    (ws : List Worker)
    → all_exited ws ≡ false
    → (i : ℕ) × (w : Worker) × (get_elem? ws i ≡ some w) × (w ≢ exited)
find_live [] h = cc
find_live (waiting ∷ ws) h = (0, waiting, refl, λ e. cc)
find_live (running t ∷ ws) h = (0, running t, refl, λ e. cc)
find_live (exited ∷ ws) h = let (i, w, at, live) = find_live ws h in (suc i, w, at, live)

-- Steps of the workers, by number.
unfoldable pub work_all : List ℕ → ThreadPool → ThreadPool
work_all [] p = p
work_all (i ∷ is) p = work_all is (work i p)

drains :
    (n : ℕ) (p : ThreadPool)
    → work_left p ≤ n
    → p.stopping ≡ true
    → (order : List ℕ) × (all_exited (work_all order p).workers ≡ true) × (length order ≤ n)
unfolding work_all
drains zero p h s = elim (Bool-cases (all_exited p.workers)) [
  | inl done ↦ ([], done, omega arith)
  | inr more ↦
      let (i, w, at, live) = find_live p.workers more in
      absurd (omega (arith, (work-work_left i p w s at live).0))
]
drains (suc n) p h s = elim (Bool-cases (all_exited p.workers)) [
  | inl done ↦ ([], done, omega arith)
  | inr more ↦
      let (i, w, at, live) = find_live p.workers more in
      let (less, still) = work-work_left i p w s at live in
      let (order, done, short) = drains n (work i p) (omega (arith, less)) still in
      (i ∷ order, done, omega (arith, short))
]

-- The joins of `stop` can return: after at most `work_left` steps of the workers all have.
pub join_all_returns :
    (p : ThreadPool)
    → p.stopping ≡ true
    → (order : List ℕ) × (q : ThreadPool) × (join_all (work_all order p) ≡ some q)
      × (length order ≤ work_left p)
unfolding join_all
join_all_returns p s =
    let (order, done, short) = drains (work_left p) p (omega arith) s in
    (order, record (work_all order p) { workers = [] }, rw done refl, short)

runs-exited : (a : ℕ) (ws : List Worker) → all_exited ws ≡ true → sum (runs a) ws ≡ 0
runs-exited a [] h = refl
runs-exited a (exited ∷ ws) h = omega (arith, runs-exited a ws h)
runs-exited a (waiting ∷ ws) h = cc
runs-exited a (running t ∷ ws) h = cc

is_gone-exited : (ws : List Worker) → all_exited ws ≡ true → sum is_gone ws ≡ length ws
is_gone-exited [] h = refl
is_gone-exited (exited ∷ ws) h = omega (arith, is_gone-exited ws h)
is_gone-exited (waiting ∷ ws) h = cc
is_gone-exited (running t ∷ ws) h = cc

join_all-some :
    (p q : ThreadPool) → join_all p ≡ some q → (all_exited p.workers ≡ true) × (q.tasks ≡ p.tasks)
unfolding join_all
join_all-some p q h = ground arith

-- All workers have returned from a pool with a sound history.
joined :
    (s : Traced)
    → IsSound s
    → 0 < length s.pool.workers
    → all_exited s.pool.workers ≡ true
    → (s.pool.tasks ≡ []) × ((a : ℕ) → count a s.ended ≡ count a s.accepted)
joined s h pos done = elim h.drained [
  | inl none_gone ↦ absurd (omega (arith, is_gone-exited s.pool.workers done))
  | inr (stopped, empty) ↦ (
    empty,
    λ a. omega (
      arith,
      h.once a,
      runs-exited a s.pool.workers done,
      ap (count a) h.in_order,
      count-append a s.begun s.pool.tasks,
      ap (count a) empty,
    ),
  )
]

length-after_wake :
    (i : ℕ) (w : Wake) (p : ThreadPool) → length (after_wake i w p).workers ≡ length p.workers
length-after_wake i sleeps p = refl
length-after_wake i leaves p = length-set p.workers i exited
length-after_wake i (takes t ts) p = length-set p.workers i (running t)

length-work_as :
    (i : ℕ) (o : Option Worker) (p : ThreadPool) → length (work_as i o p).workers ≡ length p.workers
length-work_as i none p = refl
length-work_as i (some waiting) p = length-after_wake i (wake p.stopping p.tasks) p
length-work_as i (some (running t)) p = length-set p.workers i waiting
length-work_as i (some exited) p = refl

length-step : (p : ThreadPool) (e : Event) → length (step p e).workers ≡ length p.workers
unfolding step enqueue request_stop work
length-step p (enqueues t) = ground arith
length-step p stops = refl
length-step p (works i) = length-work_as i (get_elem? p.workers i) p

length-trace :
    (s : Traced) (es : List Event) → length (trace s es).pool.workers ≡ length s.pool.workers
unfolding trace
length-trace s [] = refl
length-trace s (e ∷ es) = length-trace (traced_step s e) es ∙ length-step s.pool e

length-spawn : (n : ℕ) (ws : List Worker) → length (spawn n ws) ≡ n + length ws
length-spawn zero ws = omega arith
length-spawn (suc n) ws =
    omega (arith, length-spawn n (ws ++ waiting ∷ []), length-append ws (waiting ∷ []))

length-started : (n : ℕ) → length (started n).pool.workers ≡ n
unfolding start
length-started n = omega (arith, length-spawn n [])

-- When the joins of a pool with a worker return, after any history, the queue is empty and every
-- accepted task has been run to its end, as often as it was accepted.
pub join_all-runs_all :
    (n : ℕ) (es : List Event) (q : ThreadPool)
    → 0 < n
    → join_all (trace (started n) es).pool ≡ some q
    → (q.tasks ≡ [])
      × ((a : ℕ) → count a (trace (started n) es).ended ≡ count a (trace (started n) es).accepted)
join_all-runs_all n es q pos h =
    let s = trace (started n) es in
    let (done, same) = join_all-some s.pool q h in
    let (empty, all_run) =
      joined s (trace-started-IsSound n es)
        (omega (arith, length-trace (started n) es, length-started n)) done in
    (same ∙ empty, all_run)
