-- ===== src/Logger.antt =====
-- logger.h and logger.cpp: lines in a queue and one thread that writes them.
-- Each stretch of code under the mutex is one step, and so is the writing of a batch. The text of the
-- clock is an argument. `opens n` says whether the file opens for the batch after n others: the code
-- does not look at that, and the lines of a batch without a file are lost.
pub mod Order
pub mod Shutdown
mod Tests
use mini_server.Prelude.{
  ℕ, zero, suc, Bool, true, false, ◌||◌, List, [], ◌∷◌, ◌++◌, if◌then◌else◌, length,
}
use mini_server.Bytes.{Bytes, codes}
use mini_server.Bytes.Decimal.{to_decimal}

-- Where the thread stands in `workerLoop`.
pub data Writer : Type 0 where
  not_started : Writer
  idle : Writer
  writing : List Bytes → Writer
  returned : Writer

pub record Logger : Type 0 where
  pub filepath : Bytes
  pub running : Bool
  pub queue : List Bytes
  pub writer : Writer
  pub opens : ℕ → Bool
  pub batches : List (Bool × List Bytes)

-- Logger()
abbrev pub logger : (ℕ → Bool) → Logger
logger opens = record {
  filepath = [];
  running = false;
  queue = [];
  writer = not_started;
  opens = opens;
  batches = [];
}

-- The batches that the thread is through with, and whether their file was open; the lines of all of
-- them, and those that are in a file.
unfoldable pub finished : List (Bool × List Bytes) → List Bytes
finished [] = []
finished ((_, batch) ∷ batches) = batch ++ finished batches

unfoldable pub written : List (Bool × List Bytes) → List Bytes
written [] = []
written ((opened, batch) ∷ batches) =
    let rest = written batches in if opened then batch ++ rest else rest

-- Logger::init
unfoldable pub init : Bytes → Logger → Logger
init filepath l =
    if l.running
    then record l { filepath = filepath }
    else record l { filepath = filepath; running = true; writer = idle }

-- The first part of `shutdown`, under the mutex.
unfoldable pub request_shutdown : Logger → Logger
request_shutdown l = record l { running = false }

-- The second part: the join returns when the thread has.
abbrev pub join_writer : Writer → Bool
join_writer not_started = true
join_writer returned = true
join_writer _ = false

-- Logger::enqueue
unfoldable pub enqueue : Bytes → Logger → Logger
enqueue line l = record l { queue = l.queue ++ line ∷ [] }

-- Logger::access
unfoldable access : Bytes → Bytes → Bytes → Bytes → ℕ → ℕ → Logger → Logger
unfolding enqueue
access now client_ip method path status_code bytes_sent l =
    enqueue
      (now
        ++ (codes " ACCESS "
            ++ (client_ip
                ++ (codes " "
                    ++ (method
                        ++ (codes " "
                            ++ (path
                                ++ (codes " "
                                    ++ (to_decimal status_code
                                        ++ (codes " " ++ to_decimal bytes_sent))))))))))
      l

-- Logger::info
unfoldable info : Bytes → Bytes → Logger → Logger
unfolding enqueue
info now message l = enqueue (now ++ (codes " INFO " ++ message)) l

-- The thread looks at the queue: it sleeps, returns, or takes the whole queue as its batch.
unfoldable pub take_batch : Bool → List Bytes → Logger → Logger
take_batch true [] l = l
take_batch false [] l = record l { writer = returned }
take_batch _ (b ∷ bs) l = record l { queue = []; writer = writing (b ∷ bs) }

-- The batch goes to the file, if it opens.
abbrev pub write_batch : List Bytes → Logger → Logger
write_batch batch l = record l {
  batches = l.batches ++ (l.opens (length l.batches), batch) ∷ [];
  writer = idle;
}

-- One step of `workerLoop`.
abbrev pub work_as : Writer → Logger → Logger
work_as idle l = take_batch l.running l.queue l
work_as (writing batch) l = write_batch batch l
work_as _ l = l

-- The join of `shutdown` when no other thread logs: the thread goes on until it has returned.
-- The fuel bounds its steps.
unfoldable pub join_loop : ℕ → Logger → Logger
join_loop zero l = l
join_loop (suc fuel) l =
    let rest = join_loop fuel (work_as l.writer l) in if join_writer l.writer then l else rest

-- The join while other threads still log: each entry of the list is what they log before a step of the
-- thread. When the list is at its end they log no more.
unfoldable pub join_beside : List (List Bytes) → Logger → Logger
join_beside [] l = join_loop 4 l
join_beside (lines ∷ others) l =
    let more : Logger = record l { queue = l.queue ++ lines } in
    let rest = join_beside others (work_as l.writer more) in
    if join_writer l.writer then l else rest

-- Logger::shutdown: the thread goes on with the batch in hand and the queue until that is empty.
unfoldable pub shutdown_beside : List (List Bytes) → Logger → Logger
shutdown_beside others l = if l.running then join_beside others (request_shutdown l) else l

-- Logger::shutdown as `HttpServer::stop` calls it, when its workers have gone and log nothing more.
unfoldable pub shutdown : Logger → Logger
shutdown l = shutdown_beside [] l

-- What can happen, in any order. `init` comes when no thread runs.
pub data Event : Type 0 where
  inits : Bytes → Event
  logs : Bytes → Event
  shuts_down : Event
  works : Event

-- `worker_` is assigned only when the last thread has been joined.
unfoldable pub step : Logger → Event → Logger
step l (inits filepath) = if join_writer l.writer || l.running then init filepath l else l
step l (logs line) = enqueue line l
step l shuts_down = request_shutdown l
step l works = work_as l.writer l
