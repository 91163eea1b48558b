-- ===== src/HttpServer/Phases.antt =====
-- Where a descriptor stands between two steps: closed, waiting for the client, or with a worker.
pub mod Closing
pub mod Answering
pub mod Processing
pub mod Running
pub mod Writing
pub mod Dispatching
pub mod Events
pub mod Reaching
use mini_server.Prelude.{
  ℕ, ◌≡◌, refl, ap, ◌∙◌, subst, ◌≢◌, ◌⊎◌, inl, inr, true, false, Option, none, some, [], ==-refl,
  ==→eq, Bool-cases, ne→==, sum, ◌==◌,
}
use mini_server.Connection.{Connection}
use mini_server.Connection.Sending.{remaining, IsSending}
use mini_server.Epoller.{Interest, absent, disarmed, readable_once, writable_once, set_at}
use mini_server.HttpServer.{HttpServer}
use mini_server.HttpServer.Steps.{read_tasks, write_tasks}

-- Open, and with no worker.
abbrev IsResting : Connection → ℕ → ℕ → Type 0
IsResting c r w = (c.closed ≡ false) × (c.processing ≡ false) × (r ≡ 0) × (w ≡ 0)

-- Open, and with a task for a worker.
abbrev IsTaken : Connection → Type 0
IsTaken c = (c.closed ≡ false) × (c.processing ≡ true)

-- The phases of a descriptor with `r` read tasks and `w` write tasks. Without a connection it is not
-- registered. With one it is not registered either, as EPOLL_CTL_ADD failed, and no worker has it; or it is armed for reading, with nothing left to send, or for writing, and no
-- worker has it; or it is disarmed and exactly one task has it: one that reads, with nothing left to
-- send, or one that writes.
abbrev pub Phase : Option Connection → Interest → ℕ → ℕ → Type 0
Phase none absent r w = Unit
Phase none _ r w = ⊥
Phase (some c) absent r w = IsResting c r w × (remaining c ≡ [])
Phase (some c) readable_once r w = IsResting c r w × (remaining c ≡ [])
Phase (some c) writable_once r w = IsResting c r w × IsSending c
Phase (some c) disarmed r w =
    IsTaken c × (((r ≡ 1) × (w ≡ 0) × (remaining c ≡ [])) ⊎ ((r ≡ 0) × (w ≡ 1) × IsSending c))

abbrev pub InPhase : HttpServer → ℕ → Type 0
InPhase s fd =
    Phase (s.connections fd) (s.interest fd) (sum (read_tasks fd) s.tasks)
      (sum (write_tasks fd) s.tasks)

abbrev pub AllInPhase : HttpServer → Type 0
AllInPhase s = (fd : ℕ) → InPhase s fd

module _ {ℓ} {A : Type ℓ} (k : ℕ) (v : A) (m : ℕ → A) where
  pub set_at_self : set_at k v m k ≡ v
  set_at_self = rw (==-refl k) refl

  pub set_at_ne : (j : ℕ) → k ≢ j → set_at k v m j ≡ m j
  set_at_ne j h = rw (ne→== k j h) refl

-- Nothing changes for the descriptor `j`.
pub record SameAt (s t : HttpServer) (j : ℕ) : Type 0 where
  pub conn : t.connections j ≡ s.connections j
  pub armed : t.interest j ≡ s.interest j
  pub reading : sum (read_tasks j) t.tasks ≡ sum (read_tasks j) s.tasks
  pub writing : sum (write_tasks j) t.tasks ≡ sum (write_tasks j) s.tasks

SameAt-InPhase : (s t : HttpServer) (j : ℕ) → SameAt s t j → InPhase s j → InPhase t j
SameAt-InPhase s t j h p = rw (h.conn, h.armed, h.reading, h.writing) p

pub SameAt-refl : (s : HttpServer) (j : ℕ) → SameAt s s j
SameAt-refl s j = record { conn = refl; armed = refl; reading = refl; writing = refl }

pub SameAt-trans : (s t u : HttpServer) (j : ℕ) → SameAt s t j → SameAt t u j → SameAt s u j
SameAt-trans s t u j h k = record {
  conn = k.conn ∙ h.conn;
  armed = k.armed ∙ h.armed;
  reading = k.reading ∙ h.reading;
  writing = k.writing ∙ h.writing;
}

-- A step that changes one descriptor keeps the phases if it keeps that one's.
pub one-AllInPhase :
    (s t : HttpServer) (fd : ℕ)
    → AllInPhase s
    → ((j : ℕ) → fd ≢ j → SameAt s t j)
    → InPhase t fd
    → AllInPhase t
one-AllInPhase s t fd p same here j = elim (Bool-cases (fd == j)) [
  | inl e ↦ subst (InPhase t) (==→eq fd j e) here
  | inr n ↦ SameAt-InPhase s t j (same j λ e. cc (n, ==-refl fd, ap (◌==◌ fd) e)) (p j)
]
