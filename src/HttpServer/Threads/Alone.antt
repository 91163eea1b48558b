-- ===== src/HttpServer/Threads/Alone.antt =====
-- A worker that runs its handler with no step of another thread between, beside the handler of
-- http_server.cpp as one step.
pub mod Reading
pub mod Ending
pub mod Writing
pub mod Refines
use mathlib.Core.Path.{fun_ext}
use mini_server.Prelude.{
  ℕ, ◌+◌, ◌≡◌, refl, sym, ap, ◌∙◌, subst, Bool, true, false, Option, none, some, List, [], ◌∷◌,
  if◌then◌else◌,
}
use mini_server.Bytes.{Bytes}
use mini_server.Connection.{Connection, mark_closed}
use mini_server.Epoller.{Interest, set_at}
use mini_server.HttpServer.{
  HttpServer, Outside, put_connection, rearm, renew_timer, without_connection, close_connection,
}
use mini_server.HttpServer.Handlers.{
  ReadEnd, end_of_file, read_failed, no_more_yet, WriteAnswer, would_block,
}
use mini_server.HttpServer.Phases.{set_at_self, set_at_ne}
use mini_server.HttpServer.Threads.{
  chunk, ended, reading, sending, Stage, closing, marking, arming, Worker, idle, at, Shared,
  ReadAnswer, no_more, goes_on, work_at, set_object, set_interest, set_timer, forget, unregister,
}
use mini_server.HttpServer.Threads.Owned.{split_at}

-- What Steps keeps of the shared state.
abbrev pub seen_connection : Shared → ℕ → Option Connection
seen_connection s fd = if s.table fd then some (s.objects fd) else none

abbrev pub seen : Shared → HttpServer
seen s = record {
  idle_timeout = s.idle_timeout;
  html_root = s.html_root;
  connections = seen_connection s;
  interest = s.interest;
  timers = s.timers;
  tasks = s.tasks;
}

-- A step of a worker whose clock is at `now`.
abbrev pub stepped : Outside → ℕ → ReadAnswer → WriteAnswer → ℕ → Stage → Shared → Worker × Shared
stepped o now read write fd stage s =
    work_at o (record { now = now; read = read; write = write }) fd stage s

-- The stages at which a worker calls `read` or `writev`.
abbrev pub calls : Stage → Bool
calls reading = true
calls sending = true
calls _ = false

-- The steps of one worker until it is idle, for what its calls of `read` answer, all of them, and for what
-- its calls of `writev` answer from the `k`-th one on.
pub data Runs (o : Outside) (now : ℕ) (answers : ℕ → WriteAnswer)
    : List ReadAnswer → ℕ → Worker → Shared → Shared → Type 0 where
  rests : {k : ℕ} {s : Shared} → Runs o now answers [] k idle s s
  goes :
      {rs : List ReadAnswer} {k fd : ℕ} {stage : Stage} {s t : Shared}
      → calls stage ≡ false
      → Runs o now answers rs k
          (stepped o now no_more would_block fd stage s).0
          (stepped o now no_more would_block fd stage s).1
          t
      → Runs o now answers rs k (at fd stage) s t
  takes :
      {rs : List ReadAnswer} {k fd : ℕ} {s t : Shared} (r : ReadAnswer)
      → Runs o now answers rs k
          (stepped o now r would_block fd reading s).0
          (stepped o now r would_block fd reading s).1
          t
      → Runs o now answers (r ∷ rs) k (at fd reading) s t
  gives :
      {rs : List ReadAnswer} {k fd : ℕ} {s t : Shared}
      → Runs o now answers rs
          (k + 1)
          (stepped o now no_more (answers k) fd sending s).0
          (stepped o now no_more (answers k) fd sending s).1
          t
      → Runs o now answers rs k (at fd sending) s t

-- What `read` answers in a run of `handleRead`. Both an end and an error close the connection.
abbrev pub last_read : ReadEnd → ReadAnswer
last_read end_of_file = ended
last_read read_failed = ended
last_read no_more_yet = no_more

abbrev pub all_reads : ReadEnd → List Bytes → List ReadAnswer
all_reads e [] = last_read e ∷ []
all_reads e (b ∷ bs) = chunk b ∷ all_reads e bs

abbrev pub Ends :
    Outside → ℕ → (ℕ → WriteAnswer) → List ReadAnswer → ℕ → Worker → Shared → HttpServer → Type 0
Ends o now answers rs k p s x = (t : Shared) × Runs o now answers rs k p s t × (seen t ≡ x)

module _ (o : Outside) (now : ℕ) (answers : ℕ → WriteAnswer) (rs : List ReadAnswer) (k fd : ℕ) where
  pub going :
      (stage : Stage) (s : Shared) (x : HttpServer)
      → calls stage ≡ false
      → Ends o now answers rs k
          (stepped o now no_more would_block fd stage s).0
          (stepped o now no_more would_block fd stage s).1
          x
      → Ends o now answers rs k (at fd stage) s x
  going stage s x quiet (t, r, e) = (t, goes quiet r, e)

  pub taking :
      (r : ReadAnswer) (s : Shared) (x : HttpServer)
      → Ends o now answers rs k
          (stepped o now r would_block fd reading s).0
          (stepped o now r would_block fd reading s).1
          x
      → Ends o now answers (r ∷ rs) k (at fd reading) s x
  taking r s x (t, h, e) = (t, takes r h, e)

  pub giving :
      (a : WriteAnswer) (s : Shared) (x : HttpServer)
      → answers k ≡ a
      → Ends o now answers rs
          (k + 1)
          (stepped o now no_more a fd sending s).0
          (stepped o now no_more a fd sending s).1
          x
      → Ends o now answers rs k (at fd sending) s x
  giving a s x given rest =
      let (t, h, e) =
        subst
          (λ b.
            Ends o now answers rs (k + 1) (stepped o now no_more b fd sending s).0
              (stepped o now no_more b fd sending s).1 x)
          (sym given) rest in
      (t, gives h, e)

pub set_at_twice {ℓ} :
    {A : Type ℓ} (k : ℕ) (v w : A) (m : ℕ → A) → set_at k v (set_at k w m) ≡ set_at k v m
set_at_twice k v w m = fun_ext (
    split_at k (λ j. set_at k v (set_at k w m) j ≡ set_at k v m j)
      (set_at_self k v (set_at k w m) ∙ sym (set_at_self k v m))
      (λ j n. set_at_ne k v (set_at k w m) j n ∙ set_at_ne k w m j n ∙ sym (set_at_ne k v m j n)))

pub set_at_own {ℓ} : {A : Type ℓ} (k : ℕ) (v : A) (m : ℕ → A) → m k ≡ v → set_at k v m ≡ m
set_at_own k v m e = fun_ext (
    split_at k (λ j. set_at k v m j ≡ m j) (set_at_self k v m ∙ sym e) (λ j n. set_at_ne k v m j n))

pub put_twice :
    (fd : ℕ) (d c : Connection) (x : HttpServer)
    → put_connection fd d (put_connection fd c x) ≡ put_connection fd d x
put_twice fd d c x =
    ap (λ m. record x { connections = m }) (set_at_twice fd (some d) (some c) x.connections)

pub put_own :
    (fd : ℕ) (c : Connection) (x : HttpServer)
    → x.connections fd ≡ some c
    → put_connection fd c x ≡ x
put_own fd c x e = ap (λ m. record x { connections = m }) (set_at_own fd (some c) x.connections e)

-- The connection `c` at the descriptor `fd`, in a state that Steps sees as `x`.
pub record IsAt (fd : ℕ) (c : Connection) (s : Shared) (x : HttpServer) : Type 0 where
  pub there : s.table fd ≡ true
  pub own : s.objects fd ≡ c
  pub same : seen s ≡ x

-- From the shared state itself.
pub starting : (fd : ℕ) (s : Shared) → s.table fd ≡ true → IsAt fd (s.objects fd) s (seen s)
starting fd s e = record { there = e; own = refl; same = refl }

pub IsAt-connection :
    (fd : ℕ) (c : Connection) (s : Shared) (x : HttpServer)
    → IsAt fd c s x
    → x.connections fd ≡ some c
IsAt-connection fd c s x h =
    let e : seen_connection s fd ≡ some c = rw (h.there, h.own) refl in
    sym (ap (λ (y : HttpServer). y.connections fd) h.same) ∙ e

seen_there : (s : Shared) (fd : ℕ) → s.table fd ≡ true → seen_connection s fd ≡ some (s.objects fd)
seen_there s fd e = rw e refl

pub seen_out : (s : Shared) (fd : ℕ) → s.table fd ≡ false → seen_connection s fd ≡ none
seen_out s fd e = rw e refl

seen_same :
    (s t : Shared) (k : ℕ)
    → t.table k ≡ s.table k
    → t.objects k ≡ s.objects k
    → seen_connection t k ≡ seen_connection s k
seen_same s t k e f = rw (e, f) refl

module _ (fd : ℕ) (c : Connection) (s : Shared) (x : HttpServer) (h : IsAt fd c s x) where
  pub stored : (d : Connection) → IsAt fd d (set_object fd d s) (put_connection fd d x)
  stored d =
      let t = set_object fd d s in
      let before = seen_connection s in
      record {
        there = h.there;
        own = set_at_self fd d s.objects;
        same =
            ap (λ m. record (seen s) { connections = m })
              (fun_ext (
                split_at fd (λ k. seen_connection t k ≡ set_at fd (some d) before k)
                  (seen_there t fd h.there
                    ∙ ap some (set_at_self fd d s.objects)
                    ∙ sym (set_at_self fd (some d) before))
                  (λ k n.
                    seen_same s t k refl (set_at_ne fd d s.objects k n)
                    ∙ sym (set_at_ne fd (some d) before k n))))
            ∙ ap (put_connection fd d) h.same;
      }

  pub renewed : (now : ℕ) → IsAt fd c (set_timer now fd s) (renew_timer now fd x)
  renewed now = record { there = h.there; own = h.own; same = ap (renew_timer now fd) h.same }

  pub rearmed : (wanted : Interest) → IsAt fd c (set_interest fd wanted s) (rearm fd wanted x)
  rearmed wanted = record { there = h.there; own = h.own; same = ap (rearm fd wanted) h.same }

  module _ (o : Outside) (now : ℕ) (answers : ℕ → WriteAnswer) (k : ℕ) where
    pub arms :
        (wanted : Interest) → Ends o now answers [] k (at fd (arming wanted)) s (rearm fd wanted x)
    unfolding work_at
    arms wanted = (set_interest fd wanted s, goes refl rests, (rearmed wanted).same)

    abbrev shut : Shared
    shut = unregister fd (set_object fd (mark_closed (s.objects fd)) (forget fd s))

    shut_lem : seen shut ≡ without_connection fd (seen s)
    shut_lem =
        let before = seen_connection s in
        ap (λ m. record (without_connection fd (seen s)) { connections = m })
          (fun_ext (
            split_at fd (λ k. seen_connection shut k ≡ set_at fd none before k)
              (seen_out shut fd (set_at_self fd false s.table) ∙ sym (set_at_self fd none before))
              (λ k n.
                seen_same s shut k (set_at_ne fd false s.table k n)
                  (set_at_ne fd (mark_closed (s.objects fd)) s.objects k n)
                ∙ sym (set_at_ne fd none before k n))))

    close_connection_lem : close_connection fd x ≡ without_connection fd x
    unfolding close_connection
    close_connection_lem =
        ap (λ (m : Option Connection). elim m [ none ↦ x | some c ↦ without_connection fd x ])
          (IsAt-connection fd c s x h)

    pub closes : Ends o now answers [] k (at fd closing) s (close_connection fd x)
    unfolding work_at
    closes = (
      shut,
      goes refl (
          subst
            (λ b.
              Runs o now answers [] k (goes_on b fd marking) (if b then forget fd s else s) shut)
            (sym h.there) (goes refl (goes refl (goes refl rests)))),
      shut_lem ∙ ap (without_connection fd) h.same ∙ sym close_connection_lem,
    )
