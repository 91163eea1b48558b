-- ===== src/HttpServer/Phases/Closing.antt =====
-- `closeConnection`, and the phases behind it.
use mini_server.Prelude.{ℕ, ◌≡◌, refl, ◌≢◌, inl, inr, none, some, List, [], ◌∷◌, Option-cases}
use mini_server.Connection.{Connection}
use mini_server.Epoller.{absent}
use mini_server.HttpServer.{HttpServer, close_connection, without_connection}
use mini_server.HttpServer.Handlers.{close_all}
use mini_server.HttpServer.Phases.{
  InPhase, AllInPhase, SameAt, SameAt-refl, one-AllInPhase, set_at_self, set_at_ne,
}

module _ (fd : ℕ) (s : HttpServer) where
  pub close_connection-some :
      (c : Connection) → s.connections fd ≡ some c → close_connection fd s ≡ without_connection fd s
  unfolding close_connection
  close_connection-some c h = rw (h, close_connection) refl

  pub close_connection-none : s.connections fd ≡ none → close_connection fd s ≡ s
  unfolding close_connection
  close_connection-none h = rw (h, close_connection) refl

  without_connection-SameAt : (j : ℕ) → fd ≢ j → SameAt s (without_connection fd s) j
  without_connection-SameAt j h = record {
    conn = set_at_ne fd none s.connections j h;
    armed = set_at_ne fd absent s.interest j h;
    reading = refl;
    writing = refl;
  }

  without_connection-InPhase : InPhase (without_connection fd s) fd
  without_connection-InPhase =
      rw (set_at_self fd none s.connections, set_at_self fd absent s.interest) tt

  -- `closeConnection` of an open descriptor leaves it closed, and touches no other.
  pub close-InPhase :
      (c : Connection) → s.connections fd ≡ some c → InPhase (close_connection fd s) fd
  close-InPhase c h = rw (close_connection-some c h) without_connection-InPhase

  pub close-SameAt : (j : ℕ) → fd ≢ j → SameAt s (close_connection fd s) j
  close-SameAt j n = elim (Option-cases (s.connections fd)) [
    | inl gone ↦ rw (close_connection-none gone) (SameAt-refl s j)
    | inr (c, at) ↦ rw (close_connection-some c at) (without_connection-SameAt j n)
  ]

  close-AllInPhase : AllInPhase s → AllInPhase (close_connection fd s)
  close-AllInPhase p = elim (Option-cases (s.connections fd)) [
    | inl gone ↦ rw (close_connection-none gone) p
    | inr (c, at) ↦ one-AllInPhase s (close_connection fd s) fd p close-SameAt (close-InPhase c at)
  ]

pub close_all-AllInPhase :
    (fds : List ℕ) (s : HttpServer) → AllInPhase s → AllInPhase (close_all fds s)
unfolding close_all
close_all-AllInPhase [] s p = p
close_all-AllInPhase (fd ∷ fds) s p =
    close_all-AllInPhase fds (close_connection fd s) (close-AllInPhase fd s p)
