-- ===== src/TimerHeap/Tests.antt =====
-- Runs of the timer heap, and its theorems at concrete inputs.
use mini_server.Prelude.{ℕ, ◌≡◌, refl, true, none, List, [], ◌∷◌}
use mini_server.TimerHeap.{
  find, erase, put, push, next_version, is_current, add_or_update, remove, pop_expired, empty,
  is_empty,
}
use mini_server.TimerHeap.Expiry.{contains, Distinct}
use mini_server.TimerHeap.History.{Call, adds, removes, run, has_passed, spec_run, pop_expired-run}

-- The calls of the unit test, with time in seconds.
abbrev calls : List Call
calls = adds 1 5 ∷ adds 2 2 ∷ adds 1 1 ∷ removes 2 ∷ []

first_sweep : (pop_expired 1 (run empty calls)).expired ≡ 1 ∷ []
unfolding run add_or_update remove pop_expired find erase put push next_version is_current
first_sweep = refl

empty_after : is_empty (pop_expired 1 (run empty calls)).timers ≡ true
unfolding run add_or_update remove pop_expired find erase put push next_version is_current is_empty
empty_after = refl

pop_expired-run_example :
    ((fd : ℕ)
      → contains fd (pop_expired 1 (run empty calls)).expired
        ≡ has_passed 1 (spec_run (λ k. none) calls fd))
    × Distinct (pop_expired 1 (run empty calls)).expired
pop_expired-run_example = pop_expired-run calls 1
