-- ===== src/HttpServer/Traffic/Unmoved.antt =====
-- Events that move no bytes of a descriptor.
use mini_server.Prelude.{
  ℕ, ◌≡◌, refl, ◌∙◌, inl, inr, true, not, ◌&&◌, Option, none, some, List, [], ◌∷◌, ==→eq,
  Bool-cases, Option-cases, if_either, ◌==◌,
}
use mini_server.Connection.{Connection, set_processing}
use mini_server.Connection.Sending.{remaining}
use mini_server.Epoller.{Interest, absent, disarmed, readable_once, writable_once, set_at}
use mini_server.HttpServer.{
  HttpServer, Task, reads, writes, close_connection, begin_processing, dispatch_begun, dispatch,
}
use mini_server.HttpServer.Handlers.{close_all}
use mini_server.HttpServer.Steps.{disarm, on_hang_up, on_readable, on_writable}
use mini_server.HttpServer.Phases.Closing.{close_connection-some, close_connection-none}

-- The connection is closed, or its bytes are where they were.
abbrev pub IsUnmoved : Option Connection → Option Connection → Type 0
IsUnmoved _ none = Unit
IsUnmoved none (some d) = ⊥
IsUnmoved (some c) (some d) = (d.read_buf ≡ c.read_buf) × (remaining d ≡ remaining c)

pub IsUnmoved-refl : (o : Option Connection) → IsUnmoved o o
IsUnmoved-refl none = tt
IsUnmoved-refl (some c) = (refl, refl)

IsUnmoved-trans : (a b c : Option Connection) → IsUnmoved a b → IsUnmoved b c → IsUnmoved a c
IsUnmoved-trans a b none h k = tt
IsUnmoved-trans a none (some z) h k = absurd k
IsUnmoved-trans none (some y) (some z) h k = absurd h
IsUnmoved-trans (some x) (some y) (some z) h k = (k.0 ∙ h.0, k.1 ∙ h.1)

-- A server in which the connection of `fd` is unmoved.
abbrev pub IsUnmovedAt : ℕ → HttpServer → HttpServer → Type 0
IsUnmovedAt fd s t = IsUnmoved (s.connections fd) (t.connections fd)

-- A write to one entry of the table.
put-IsUnmoved :
    (k fd : ℕ) (s : HttpServer) (v : Option Connection)
    → IsUnmoved (s.connections k) v
    → IsUnmoved (s.connections fd) (set_at k v s.connections fd)
put-IsUnmoved k fd s v h = elim (Bool-cases (k == fd)) [
  | inl same ↦ rw (same, ← ==→eq k fd same) h
  | inr other ↦ rw other (IsUnmoved-refl (s.connections fd))
]

module _ (k fd : ℕ) (s : HttpServer) where
  pub close_connection-IsUnmoved : IsUnmovedAt fd s (close_connection k s)
  close_connection-IsUnmoved = elim (Option-cases (s.connections k)) [
    | inl gone ↦ rw (close_connection-none k s gone) (IsUnmoved-refl (s.connections fd))
    | inr (c, at) ↦ rw (close_connection-some k s c at) (put-IsUnmoved k fd s none tt)
  ]

  dispatch-IsUnmoved : (t : Task) → IsUnmovedAt fd s (dispatch k t s)
  unfolding dispatch begin_processing remaining
  dispatch-IsUnmoved t = elim (Option-cases (s.connections k)) [
    | inl gone ↦ rw (gone, dispatch) (IsUnmoved-refl (s.connections fd))
    | inr (c, at) ↦
        rw (at, dispatch)
          (if_either (λ b. IsUnmovedAt fd s (dispatch_begun k t b s))
            (not c.closed && not c.processing) (some (set_processing true c)) none
            (put-IsUnmoved k fd s (some (set_processing true c)) (rw at (refl, refl)))
            (IsUnmoved-refl (s.connections fd)))
  ]

pub close_all-IsUnmoved :
    (fds : List ℕ) (fd : ℕ) (s : HttpServer) → IsUnmovedAt fd s (close_all fds s)
unfolding close_all
close_all-IsUnmoved [] fd s = IsUnmoved-refl (s.connections fd)
close_all-IsUnmoved (k ∷ fds) fd s =
    IsUnmoved-trans (s.connections fd) ((close_connection k s).connections fd)
      ((close_all fds (close_connection k s)).connections fd) (close_connection-IsUnmoved k fd s)
      (close_all-IsUnmoved fds fd (close_connection k s))

-- The loop's dispatch moves no bytes.
module _ (k fd : ℕ) (s : HttpServer) where
  pub on_hang_up-IsUnmoved : (i : Interest) → IsUnmovedAt fd s (on_hang_up i k s)
  on_hang_up-IsUnmoved absent = IsUnmoved-refl (s.connections fd)
  on_hang_up-IsUnmoved disarmed = IsUnmoved-refl (s.connections fd)
  on_hang_up-IsUnmoved readable_once = close_connection-IsUnmoved k fd (disarm k s)
  on_hang_up-IsUnmoved writable_once = close_connection-IsUnmoved k fd (disarm k s)

  pub on_readable-IsUnmoved : (i : Interest) → IsUnmovedAt fd s (on_readable i k s)
  on_readable-IsUnmoved absent = IsUnmoved-refl (s.connections fd)
  on_readable-IsUnmoved disarmed = IsUnmoved-refl (s.connections fd)
  on_readable-IsUnmoved readable_once = dispatch-IsUnmoved k fd (disarm k s) (reads k)
  on_readable-IsUnmoved writable_once = IsUnmoved-refl (s.connections fd)

  pub on_writable-IsUnmoved : (i : Interest) → IsUnmovedAt fd s (on_writable i k s)
  on_writable-IsUnmoved absent = IsUnmoved-refl (s.connections fd)
  on_writable-IsUnmoved disarmed = IsUnmoved-refl (s.connections fd)
  on_writable-IsUnmoved readable_once = IsUnmoved-refl (s.connections fd)
  on_writable-IsUnmoved writable_once = dispatch-IsUnmoved k fd (disarm k s) (writes k)
