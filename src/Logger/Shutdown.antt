-- ===== src/Logger/Shutdown.antt =====
-- `Logger::shutdown`: its end, and the lines that were given to a file by then.
use mini_server.Prelude.{◌≡◌, ◌⊎◌, Bool, true, false, List, [], ◌∷◌, ◌++◌}
use mini_server.Bytes.{Bytes}
use mini_server.Logger.{finished, Logger, Writer, idle, writing, returned}

-- The thread runs.
abbrev pub is_live : Writer → Bool
is_live idle = true
is_live (writing batch) = true
is_live _ = false

abbrev IsServed : Logger → Type 0
IsServed l = l.running ≡ true → is_live l.writer ≡ true

-- The thread has returned, and these lines have been given to a file.
abbrev pub IsFlushed : List Bytes → Logger → Type 0
IsFlushed lines l = (l.writer ≡ returned) × (l.queue ≡ []) × (finished l.batches ≡ lines)

-- The thread has lines before it or waits for some, or it has returned with none left.
abbrev IsLeaving : Logger → Type 0
IsLeaving l = (is_live l.writer ≡ true) ⊎ ((l.writer ≡ returned) × (l.queue ≡ []))

abbrev pub lines_of : List (List Bytes) → List Bytes
lines_of [] = []
lines_of (lines ∷ others) = lines ++ lines_of others

-- All lines before, and those logged meanwhile up to some point, are with a file.
pub record IsShutDown (before : List Bytes) (meanwhile : List (List Bytes)) (l : Logger)
    : Type 0 where
  pub more : List Bytes
  pub left : List Bytes
  pub from_first : lines_of meanwhile ≡ more ++ left
  pub flushed : IsFlushed (before ++ more) l
