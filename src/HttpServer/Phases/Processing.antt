-- ===== src/HttpServer/Phases/Processing.antt =====
-- `HttpServer::processConnectionTask`, and the phase of its descriptor behind it.
use mini_server.Prelude.{
  ℕ, ◌≡◌, refl, ap, ◌∙◌, ◌≢◌, ◌⊎◌, inl, inr, Bool, true, false, Option, none, some, [],
  Option-cases, if◌then◌else◌, sum,
}
use mini_server.Bytes.{Bytes}
use mini_server.Connection.{Connection, set_processing, extract_one_request}
use mini_server.Connection.Sending.{remaining, IsSending}
use mini_server.Connection.Framing.{extract_one_request_keeps, extract_one_request_waits}
use mini_server.Epoller.{Interest, disarmed, readable_once, writable_once, modified, epoll_mod}
use mini_server.HttpServer.{
  HttpServer, Outside, put_connection, rearm, finish_processing, respond, process_extracted,
  extract_open, process_connection_task,
}
use mini_server.HttpServer.Phases.{Phase, InPhase, SameAt, SameAt-refl, set_at_self, set_at_ne}
use mini_server.HttpServer.Phases.Answering.{respond-IsAnswered}
use mini_server.HttpServer.Steps.{read_tasks, write_tasks}

-- A worker has taken the only task of the descriptor.
pub record IsHeld (s : HttpServer) (fd : ℕ) : Type 0 where
  pub unarmed : s.interest fd ≡ disarmed
  pub no_reads : sum (read_tasks fd) s.tasks ≡ 0
  pub no_writes : sum (write_tasks fd) s.tasks ≡ 0

module _ (fd : ℕ) (s : HttpServer) (wanted : Interest) (d : Connection) where
  abbrev rested : HttpServer
  rested = rearm fd wanted (put_connection fd d s)

  pub rested-SameAt : (j : ℕ) → fd ≢ j → SameAt s rested j
  unfolding epoll_mod
  rested-SameAt j h = record {
    conn = set_at_ne fd (some d) s.connections j h;
    armed = set_at_ne fd (modified wanted (s.interest fd)) s.interest j h;
    reading = refl;
    writing = refl;
  }

  rested-Phase :
      s.interest fd ≡ disarmed
      → Phase (some d) wanted (sum (read_tasks fd) s.tasks) (sum (write_tasks fd) s.tasks)
      → InPhase rested fd
  unfolding epoll_mod
  rested-Phase un p =
      rw
        (
          set_at_self fd (some d) s.connections,
          set_at_self fd (modified wanted (s.interest fd)) s.interest,
          un,
        )
        p

pub if_false {ℓ} : {A : Type ℓ} (b : Bool) (x y : A) → b ≡ false → (if b then x else y) ≡ y
if_false true x y h = cc
if_false false x y h = refl

pub finish_processing-open :
    (c : Connection) → c.closed ≡ false → finish_processing c ≡ set_processing false c
unfolding finish_processing
finish_processing-open c h = if_false c.closed c (set_processing false c) h

processing-IsSending : (b : Bool) (c : Connection) → IsSending c → IsSending (set_processing b c)
processing-IsSending b c h = record {
  header_fits = h.header_fits;
  file_fits = h.file_fits;
  in_order = h.in_order;
}

module _ (fd : ℕ) (s : HttpServer) (h : IsHeld s fd) (c : Connection) (o : c.closed ≡ false) where
  -- Armed for reading, with nothing left to send.
  pub readable-InPhase :
      remaining c ≡ [] → InPhase (rested fd s readable_once (set_processing false c)) fd
  unfolding remaining
  readable-InPhase e =
      rested-Phase fd s readable_once (set_processing false c) h.unarmed
        ((o, refl, h.no_reads, h.no_writes), e)

  -- Armed for writing what is left to send.
  pub writable-InPhase : IsSending c → InPhase (rested fd s writable_once (finish_processing c)) fd
  writable-InPhase e = rw (finish_processing-open c o) (
      rested-Phase fd s writable_once (set_processing false c) h.unarmed
        ((o, refl, h.no_reads, h.no_writes), processing-IsSending false c e))

pub extract-cases :
    (p : Connection × Option Bytes) → (p ≡ (p.0, none)) ⊎ ((raw : Bytes) × (p ≡ (p.0, some raw)))
extract-cases (c, none) = inl refl
extract-cases (c, some raw) = inr (raw, refl)

module _ (o : Outside) (now fd : ℕ) (s : HttpServer) where
  process_extracted-SameAt :
      (p : Connection × Option Bytes) (j : ℕ) → fd ≢ j → SameAt s (process_extracted o now fd p s) j
  process_extracted-SameAt (c, none) j n =
      rested-SameAt fd s readable_once (set_processing false c) j n
  process_extracted-SameAt (c, some raw) j n =
      rested-SameAt fd s writable_once (finish_processing (respond o s.html_root now raw c)) j n

  pub process-none : s.connections fd ≡ none → process_connection_task o now fd s ≡ s
  unfolding process_connection_task
  process-none h = rw (h, process_connection_task) refl

  pub process-some :
      (c : Connection)
      → s.connections fd ≡ some c
      → process_connection_task o now fd s ≡ process_extracted o now fd (extract_open c) s
  unfolding process_connection_task
  process-some c h = rw (h, process_connection_task) refl

  pub process-SameAt : (j : ℕ) → fd ≢ j → SameAt s (process_connection_task o now fd s) j
  process-SameAt j n = elim (Option-cases (s.connections fd)) [
    | inl gone ↦ rw (process-none gone) (SameAt-refl s j)
    | inr (c, at) ↦ rw (process-some c at) (process_extracted-SameAt (extract_open c) j n)
  ]

  extracted-InPhase :
      (c : Connection)
      → IsHeld s fd
      → c.closed ≡ false
      → remaining c ≡ []
      → InPhase (process_extracted o now fd (extract_one_request c) s) fd
  unfolding remaining
  extracted-InPhase c h open_now e = elim (extract-cases (extract_one_request c)) [
    | inl nothing ↦
        rw (nothing, (extract_one_request_waits c _ nothing).0)
          (readable-InPhase fd s h c open_now e)
    | inr (raw, found) ↦
        let c' = (extract_one_request c).0 in
        let keeps = extract_one_request_keeps c c' raw found in
        let a = respond-IsAnswered o s.html_root now raw c' in
        rw found (
          writable-InPhase fd s h (respond o s.html_root now raw c')
            (a.same_closed ∙ ap (λ (x : Connection). x.closed) keeps ∙ open_now) a.sending)
  ]

  -- Whatever is in the read buffer, the descriptor is armed again.
  pub process-InPhase :
      (c : Connection)
      → s.connections fd ≡ some c
      → IsHeld s fd
      → c.closed ≡ false
      → remaining c ≡ []
      → InPhase (process_connection_task o now fd s) fd
  process-InPhase c at h open_now e =
      rw (process-some c at, if_false c.closed (c, none) (extract_one_request c) open_now)
        (extracted-InPhase c h open_now e)
