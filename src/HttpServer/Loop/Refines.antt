-- ===== src/HttpServer/Loop/Refines.antt =====
-- `HttpServer::eventLoop` beside the states that the steps reach.
use mini_server.Prelude.{ℕ, ◌≡◌, ◌⊎◌, Bool, true, false, ◌||◌, Option, List, [], ◌∷◌}
use mini_server.Bytes.{Bytes}
use mini_server.Epoller.{Interest, readable_once, writable_once}
use mini_server.HttpServer.{HttpServer, accept_one}
use mini_server.HttpServer.Steps.{accepts, run_works, IsFair}
use mini_server.HttpServer.Loop.{
  Report, Round, interrupted, wait_failed, reported, is_listening, handle_report, sweep_round,
}

-- `accept` gives descriptors that are not open.
abbrev pub AreFair : ℕ → List (ℕ × Bytes × Bool) → HttpServer → Type 0
AreFair now [] s = Unit
AreFair now ((fd, ip, added) ∷ rest) s =
    IsFair s (accepts fd ip added) × AreFair now rest (accept_one added now fd ip s)

-- What the kernel may report of an armed descriptor: hang-ups, errors, and what it is armed for.
abbrev pub IsArmedFor : Interest → Report → Type 0
IsArmedFor readable_once r =
    ((r.hang_up || r.error) ≡ true) ⊎ (((r.hang_up || r.error) ≡ false) × (r.readable ≡ true))
IsArmedFor writable_once r =
    ((r.hang_up || r.error) ≡ true)
    ⊎ (((r.hang_up || r.error) ≡ false) × ((r.readable ≡ false) × (r.writable ≡ true)))
IsArmedFor _ r = ⊥

abbrev pub IsReport : Option ℕ → Report → HttpServer → Type 0
IsReport listen_fd r s =
    (((is_listening listen_fd r.fd) ≡ true) × AreFair r.now r.accepted s)
    ⊎ (((is_listening listen_fd r.fd) ≡ false) × IsArmedFor (s.interest r.fd) r)

abbrev pub AreReports : Option ℕ → List Report → HttpServer → Type 0
AreReports listen_fd [] s = Unit
AreReports listen_fd (r ∷ rs) s =
    let ready = run_works r.before s in
    IsReport listen_fd r ready × AreReports listen_fd rs (handle_report listen_fd r ready)

-- The kernel keeps to this in every round that the loop comes to.
abbrev pub AreWaits : Option ℕ → List Round → HttpServer → Type 0
AreWaits listen_fd [] s = Unit
AreWaits listen_fd (r ∷ rs) s =
    let waiting = run_works r.while_waiting s in
    elim r.waited [
      | interrupted ↦ AreWaits listen_fd rs waiting
      | wait_failed ↦ Unit
      | reported reports ↦
          AreReports listen_fd reports waiting
          × AreWaits listen_fd rs (sweep_round listen_fd r reports waiting)
    ]
