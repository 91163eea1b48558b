-- ===== src/HttpServer/Tests/Threads.antt =====
-- A client is accepted, sends a request, and a worker answers, step by step.
use mini_server.Prelude.{
  ℕ, ◌≡◌, refl, ap, ◌≢◌, inl, is_none, true, false, some, List, [], ◌∷◌, arith, sum,
}
use mini_server.Bytes.{codes}
use mini_server.Bytes.{find, starts_with}
use mini_server.Connection.{
  connection, append_read_data, set_processing, extract_one_request, extract_at, total_len,
  parse_content_length,
}
use mini_server.Connection.Sending.{remaining, IsSending}
use mini_server.Epoller.{absent, epoll_add}
use mini_server.HttpServer.{reads, writes, begin_processing}
use mini_server.HttpServer.Handlers.{would_block, ReadRun, no_more_yet, handle_read, handle_write}
use mini_server.HttpServer.Threads.{
  begun, answering, at, ReadAnswer, chunk, no_more, ended, work, work_at,
}
use mini_server.HttpServer.Threads.System.{
  removing_at, ReusesNone, ReusesNoneAt, AddsAll, AddsAt, System, beginning, accepts, is_readable,
  sweeps, Move, works, loops, loop_step, move, tasks_at, worker_at, system, IsFair, Reaches, starts,
  moves,
}
use mini_server.HttpServer.Threads.Ownership.{is_armed, loop_at}
use mini_server.HttpServer.Threads.Safety.{Reaches-exclusive, Reaches-begins, Reaches-answers}
use mini_server.HttpServer.Threads.Attended.{IsHeld, removed_by}
use mini_server.HttpServer.Threads.Alone.{Ends, seen}
use mini_server.HttpServer.Threads.Alone.Refines.{asked, handlers-Ends}
use mini_server.HttpServer.Threads.Removing.Apart.{Reaches-closes_alone}
use mini_server.HttpServer.Threads.Attended.Safety.{Reaches-held}
use mini_server.HttpServer.Tests.{outside, get_text}

-- The state behind some moves, each of which is fair.
abbrev run : System → List Move → System
run s [] = s
run s (m ∷ ms) = run (move outside s m) ms

abbrev AreFair : System → List Move → Type 0
AreFair s [] = Unit
AreFair s (m ∷ ms) = IsFair s m × AreFair (move outside s m) ms

abbrev ReuseNone : System → List Move → Type 0
ReuseNone s [] = Unit
ReuseNone s (m ∷ ms) = ReusesNoneAt s m × ReuseNone (move outside s m) ms

abbrev AreAdded : System → List Move → Type 0
AreAdded s [] = Unit
AreAdded s (m ∷ ms) = AddsAt s m × AreAdded (move outside s m) ms

run-Reaches :
    (start s : System) (ms : List Move) → Reaches start s → AreFair s ms → Reaches start (run s ms)
run-Reaches start s [] r f = r
run-Reaches start s (m ∷ ms) r f =
    run-Reaches start (move outside s m) ms (moves outside m r f.0) f.1

run-ReusesNone :
    (start s : System) (ms : List Move) (r : Reaches start s) (f : AreFair s ms)
    → ReusesNone r
    → ReuseNone s ms
    → ReusesNone (run-Reaches start s ms r f)
unfolding run-Reaches
run-ReusesNone start s [] r f n h = n
run-ReusesNone start s (m ∷ ms) r f n h =
    run-ReusesNone start (move outside s m) ms (moves outside m r f.0) f.1 (h.0, n) h.1

run-AddsAll :
    (start s : System) (ms : List Move) (r : Reaches start s) (f : AreFair s ms)
    → AddsAll r
    → AreAdded s ms
    → AddsAll (run-Reaches start s ms r f)
unfolding run-Reaches
run-AddsAll start s [] r f n h = n
run-AddsAll start s (m ∷ ms) r f n h =
    run-AddsAll start (move outside s m) ms (moves outside m r f.0) f.1 (h.0, n) h.1

abbrev first : System
first = system 30 (codes "w")

-- The loop accepts the client: `accept`, the table, `epoll_ctl`. Then it turns to the descriptor.
abbrev accepting : List Move
accepting =
    loops 0 (accepts 5 (codes "10.0.0.1"))
    ∷ loops 0 sweeps
    ∷ loops 0 sweeps
    ∷ loops 1 (is_readable 5)
    ∷ loops 1 sweeps
    ∷ []

abbrev dispatching : System
dispatching = run first accepting

accepting-AreFair : AreFair first accepting
accepting-AreFair = ((refl, refl, λ w e. cc e), (tt, (tt, (tt, (tt, tt)))))

abbrev dispatching-Reaches : Reaches first dispatching
dispatching-Reaches = run-Reaches first first accepting starts accepting-AreFair

dispatching-ReusesNone : ReusesNone dispatching-Reaches
dispatching-ReusesNone =
    run-ReusesNone first first accepting starts accepting-AreFair tt
      ((refl, λ w e. cc e), (tt, (tt, (tt, (tt, tt)))))

dispatching-AddsAll : AddsAll dispatching-Reaches
dispatching-AddsAll = run-AddsAll first first accepting starts accepting-AreFair tt (
  (λ fd e x. cc x),
  ((λ fd e x. cc x), ((λ fd e x. cc x), ((λ fd e x. cc x), ((λ fd e x. cc x), tt)))),
)

at_dispatch : dispatching.loop ≡ beginning (reads 5)
unfolding move loop_step epoll_add
at_dispatch = refl

still_open : (dispatching.shared.objects 5).closed ≡ false
unfolding move loop_step epoll_add connection
still_open = refl

Reaches-begins_example :
    begin_processing (dispatching.shared.objects 5)
    ≡ some (set_processing true (dispatching.shared.objects 5))
Reaches-begins_example =
    Reaches-begins 30 (codes "w") dispatching dispatching-Reaches dispatching-ReusesNone (reads 5)
      at_dispatch still_open

abbrev answer : ReadAnswer → Move
answer bytes = works 7 (record { now = 2; read = bytes; write = would_block })

-- The loop hands over the task; worker 7 takes it, reads twice, and extracts the request.
abbrev working : List Move
working =
    loops 1 sweeps
    ∷ loops 1 sweeps
    ∷ answer no_more
    ∷ answer no_more
    ∷ answer (chunk get_text)
    ∷ answer no_more
    ∷ answer no_more
    ∷ answer no_more
    ∷ answer no_more
    ∷ []

abbrev answering_it : System
answering_it = run dispatching working

working-AreFair : AreFair dispatching working
working-AreFair = (tt, (tt, (tt, (tt, (tt, (tt, (tt, (tt, (tt, tt)))))))))

abbrev answering_it-Reaches : Reaches first answering_it
answering_it-Reaches = run-Reaches first dispatching working dispatching-Reaches working-AreFair

answering_it-ReusesNone : ReusesNone answering_it-Reaches
answering_it-ReusesNone =
    run-ReusesNone first dispatching working dispatching-Reaches working-AreFair
      dispatching-ReusesNone (tt, (tt, (tt, (tt, (tt, (tt, (tt, (tt, (tt, tt)))))))))

answering_it-AddsAll : AddsAll answering_it-Reaches
answering_it-AddsAll =
    run-AddsAll first dispatching working dispatching-Reaches working-AreFair dispatching-AddsAll
      ((λ fd e x. cc x), ((λ fd e x. cc x), (tt, (tt, (tt, (tt, (tt, (tt, (tt, tt)))))))))

at_answer : answering_it.workers 7 ≡ at 5 (answering get_text)
unfolding move loop_step epoll_add connection work work_at begin_processing append_read_data
    extract_one_request extract_at total_len parse_content_length find starts_with
at_answer = refl

Reaches-answers_example : remaining (answering_it.shared.objects 5) ≡ []
Reaches-answers_example =
    Reaches-answers 30 (codes "w") answering_it answering_it-Reaches answering_it-ReusesNone 7 5
      get_text at_answer

Reaches-exclusive_example :
    ((j : ℕ) → worker_at (answering_it.workers j) ≡ some 5 → 7 ≡ j)
    × (sum (tasks_at 5) answering_it.shared.tasks ≡ 0)
    × (is_armed (answering_it.shared.interest 5) ≡ false)
    × (loop_at answering_it.loop ≢ some 5)
Reaches-exclusive_example =
    Reaches-exclusive 30 (codes "w") answering_it answering_it-Reaches answering_it-ReusesNone 7 5
      (ap worker_at at_answer)

in_table : answering_it.shared.table 5 ≡ true
unfolding move loop_step epoll_add connection work work_at begin_processing append_read_data
    extract_one_request extract_at total_len parse_content_length find starts_with
in_table = refl

Reaches-held_example : ((answering_it.shared.objects 5).closed ≡ false) × IsHeld answering_it 5
Reaches-held_example =
    Reaches-held 30 (codes "w") answering_it answering_it-Reaches answering_it-ReusesNone
      answering_it-AddsAll 5 in_table

-- Worker 7 reads the end of the input, and takes the connection out of the table.
abbrev closing_moves : List Move
closing_moves =
    loops 1 sweeps
    ∷ loops 1 sweeps
    ∷ answer no_more
    ∷ answer no_more
    ∷ answer ended
    ∷ answer no_more
    ∷ []

abbrev closing_it : System
closing_it = run dispatching closing_moves

closing_moves-AreFair : AreFair dispatching closing_moves
closing_moves-AreFair = (tt, (tt, (tt, (tt, (tt, (tt, tt))))))

abbrev closing_it-Reaches : Reaches first closing_it
closing_it-Reaches =
    run-Reaches first dispatching closing_moves dispatching-Reaches closing_moves-AreFair

closing_it-ReusesNone : ReusesNone closing_it-Reaches
closing_it-ReusesNone =
    run-ReusesNone first dispatching closing_moves dispatching-Reaches closing_moves-AreFair
      dispatching-ReusesNone (tt, (tt, (tt, (tt, (tt, (tt, tt))))))

closing_it-AddsAll : AddsAll closing_it-Reaches
closing_it-AddsAll =
    run-AddsAll first dispatching closing_moves dispatching-Reaches closing_moves-AreFair
      dispatching-AddsAll ((λ fd e x. cc x), ((λ fd e x. cc x), (tt, (tt, (tt, (tt, tt))))))

at_removal : removing_at (closing_it.workers 7) ≡ some 5
unfolding move loop_step epoll_add connection work work_at begin_processing
at_removal = refl

Reaches-closes_alone_example :
    (closing_it.shared.table 5 ≡ false)
    × (removed_by closing_it.loop ≢ some 5)
    × ((j : ℕ) → removing_at (closing_it.workers j) ≡ some 5 → 7 ≡ j)
Reaches-closes_alone_example =
    Reaches-closes_alone 30 (codes "w") closing_it closing_it-Reaches closing_it-ReusesNone
      closing_it-AddsAll 7 5 at_removal

-- The sweep closes the connection while worker 7 is between its last read and `addOrUpdate`: the descriptor
-- then has a timer and no connection.
abbrev sweeping_moves : List Move
sweeping_moves =
    loops 1 sweeps
    ∷ loops 1 sweeps
    ∷ answer no_more
    ∷ answer no_more
    ∷ answer no_more
    ∷ loops 40 sweeps
    ∷ loops 40 sweeps
    ∷ loops 40 sweeps
    ∷ loops 40 sweeps
    ∷ loops 40 sweeps
    ∷ answer no_more
    ∷ []

abbrev swept : System
swept = run dispatching sweeping_moves

stale_timer :
    (swept.shared.table 5 ≡ false)
    × (swept.shared.interest 5 ≡ absent)
    × (is_none (mini_server.TimerHeap.find 5 swept.shared.timers.latest) ≡ false)
unfolding move loop_step epoll_add connection work work_at begin_processing
    mini_server.TimerHeap.pop_expired mini_server.TimerHeap.pop_loop
    mini_server.TimerHeap.add_or_update mini_server.TimerHeap.remove mini_server.TimerHeap.push
    mini_server.TimerHeap.is_current mini_server.TimerHeap.find mini_server.TimerHeap.erase
    mini_server.TimerHeap.put mini_server.TimerHeap.next_version
stale_timer = (refl, refl, refl)

-- Nothing is to be sent yet.
dispatched-IsSending : IsSending (dispatching.shared.objects 5)
unfolding move loop_step epoll_add connection
dispatched-IsSending = record {
  header_fits = omega arith;
  file_fits = omega arith;
  in_order = inl refl;
}

abbrev one_request : ReadRun
one_request = record { chunks = get_text ∷ []; last = no_more_yet }

handlers-Ends_example :
    Ends outside 2
      (λ k. would_block)
      (asked (dispatching.shared.table 5) one_request)
      0
      (begun (reads 5))
      dispatching.shared
      (handle_read outside 2 one_request 5 (seen dispatching.shared))
    × Ends outside 2
        (λ k. would_block)
        []
        0
        (begun (writes 5))
        dispatching.shared
        (handle_write outside 2 (λ k. would_block) 5 (seen dispatching.shared))
handlers-Ends_example =
    handlers-Ends outside 2 5 dispatching.shared (λ k. would_block) one_request dispatched-IsSending
