-- ===== src/Logger/Tests.antt =====
-- Runs of the logger, and its theorem at a concrete input.
use mini_server.Prelude.{ℕ, ◌≡◌, refl, Bool, true, false, List, [], ◌∷◌, ◌++◌}
use mini_server.Bytes.{Bytes, codes}
use mini_server.Logger.{
  idle, returned, logger, init, request_shutdown, enqueue, take_batch, Event, inits, logs,
  shuts_down, works, step, join_beside, shutdown_beside, join_loop, finished, written,
}
use mini_server.Logger.Order.{run, all_logged, in_hand, AllOpen, logger-keeps_lines}

abbrev always : ℕ → Bool
always n = true

-- Two lines, a batch of both, and the shutdown.
abbrev events : List Event
events = inits (codes "log") ∷ logs (codes "a") ∷ logs (codes "b") ∷ works ∷ works ∷ shuts_down ∷ []

logger-keeps_lines_example :
    (finished (run (logger always) events).batches
        ++ (in_hand (run (logger always) events).writer ++ (run (logger always) events).queue)
      ≡ all_logged events)
    × (AllOpen (run (logger always) events).batches
        → written (run (logger always) events).batches
            ++ (in_hand (run (logger always) events).writer ++ (run (logger always) events).queue)
          ≡ all_logged events)
    × ((run (logger always) events).writer ≡ idle
        → (step (run (logger always) events) works).writer ≡ returned
        → finished (run (logger always) events).batches ≡ all_logged events)
logger-keeps_lines_example = logger-keeps_lines always events

both_written : written (run (logger always) events).batches ≡ codes "a" ∷ codes "b" ∷ []
unfolding written run step init enqueue take_batch request_shutdown
both_written = refl

-- No file opens: the lines are gone.
both_lost :
    (written (run (logger (λ n. false)) events).batches ≡ [])
    × ((run (logger (λ n. false)) events).queue ≡ [])
unfolding written run step init enqueue take_batch request_shutdown
both_lost = (refl, refl)

-- A line that is logged when the thread has returned stays in the queue.
left_over :
    (run (logger always) (events ++ works ∷ logs (codes "c") ∷ works ∷ [])).queue ≡ codes "c" ∷ []
unfolding run step init enqueue take_batch request_shutdown
left_over = refl

-- A logger that is shut down with one line in its queue, while another is logged.
abbrev early : List Event
early = inits (codes "log") ∷ logs (codes "a") ∷ []

abbrev meanwhile : List (List Bytes)
meanwhile = [] ∷ (codes "b" ∷ []) ∷ []

runs_then : (run (logger always) early).running ≡ true
unfolding run step init enqueue
runs_then = refl

both_then :
    written (shutdown_beside meanwhile (run (logger always) early)).batches
    ≡ codes "a" ∷ codes "b" ∷ []
unfolding written run step init enqueue take_batch request_shutdown shutdown_beside join_beside
    join_loop
both_then = refl
