-- ===== src/HttpServer/Threads/Working.antt =====
-- How each step of a worker leaves its descriptor.
use mini_server.Prelude.{
  ℕ, ◌≡◌, refl, ap, ◌∙◌, inl, inr, Bool, true, false, not, Option, none, some, [], Bool-cases,
  if_either, if◌then◌else◌, some_eq, ◌==◌,
}
use mini_server.Bytes.{Bytes}
use mini_server.Connection.{
  Connection, extract_one_request, append_read_data, set_processing, clear_write_data,
}
use mini_server.Connection.Sending.{remaining}
use mini_server.Connection.Framing.{extract_one_request_keeps, extract_one_request_waits}
use mini_server.Epoller.{
  Interest, absent, disarmed, readable_once, writable_once, modified, epoll_mod,
}
use mini_server.HttpServer.{Outside, finish_processing, extract_open}
use mini_server.HttpServer.Handlers.{WriteAnswer, returned, would_block, write_failed, is_done}
use mini_server.HttpServer.Phases.{set_at_self}
use mini_server.HttpServer.Phases.Processing.{extract-cases}
use mini_server.HttpServer.Threads.{
  Stage, getting_to_read, reading, renewing, getting_to_process, extracting, answering, answered,
  getting_to_write, testing, sending, consuming, blocked, clearing, settled, finishing, arming,
  closing, marking, deleting, shutting, Worker, idle, at, Shared, Answer, ReadAnswer, chunk,
  no_more, ended, goes_on, on_read, on_extracted, on_write, work_at, set_interest, set_object,
  forget,
}
use mini_server.HttpServer.Threads.Ownership.{
  Owner, nobody, kernel, worker, is_armed, IsRested, IsAtStage,
}
use mini_server.HttpServer.Threads.Owned.{LeavesOwned}

pub unarmed-IsRested : (i : Interest) (c : Connection) → is_armed i ≡ false → IsRested i c
unarmed-IsRested absent c h = tt
unarmed-IsRested disarmed c h = tt
unarmed-IsRested readable_once c h = cc
unarmed-IsRested writable_once c h = cc

modified-IsRested :
    (wanted i : Interest) (c : Connection) → IsRested wanted c → IsRested (modified wanted i) c
modified-IsRested wanted absent c h = tt
modified-IsRested wanted disarmed c h = h
modified-IsRested wanted readable_once c h = h
modified-IsRested wanted writable_once c h = h

-- After `finishProcessing` an open connection is not being processed, and its bytes are where they were.
finish_processing-rests :
    (c : Connection)
    → let d = finish_processing c in
      (d.closed ≡ false → d.processing ≡ false) × (remaining d ≡ remaining c)
unfolding finish_processing remaining
finish_processing-rests c = elim (Bool-cases c.closed) [
  | inl shut ↦ rw shut (λ e. cc e, refl)
  | inr open_now ↦ rw open_now (λ e. refl, refl)
]

extract_one_request-remaining : (c : Connection) → remaining (extract_one_request c).0 ≡ remaining c
unfolding remaining
extract_one_request-remaining c = elim (extract-cases (extract_one_request c)) [
  | inl nothing ↦ ap remaining (extract_one_request_waits c _ nothing).0
  | inr (raw, found) ↦ ap remaining (extract_one_request_keeps c _ raw found)
]

extract_open-remaining : (c : Connection) → remaining (extract_open c).0 ≡ remaining c
extract_open-remaining c =
    if_either (λ (p : Connection × Option Bytes). remaining p.0 ≡ remaining c) c.closed (c, none)
      (extract_one_request c) refl (extract_one_request-remaining c)

module _ (w fd : ℕ) where
  abbrev pub Leaves : Worker × Shared → Type 0
  Leaves (p, t) = (v : Owner) × LeavesOwned w fd p t v

  stays :
      (stage : Stage) (t : Shared)
      → is_armed (t.interest fd) ≡ false
      → IsAtStage stage (t.objects fd)
      → Leaves (at fd stage, t)
  stays stage t unarmed ok = (
    worker w,
    record {
      stays = λ k e. (some_eq e, refl);
      ok = ok;
      armed = λ e. cc (e, unarmed);
      rested = unarmed-IsRested (t.interest fd) (t.objects fd) unarmed;
    },
  )

  leaves : (t : Shared) → IsRested (t.interest fd) (t.objects fd) → Leaves (idle, t)
  leaves t rested = (
    if is_armed (t.interest fd) then kernel else nobody,
    record { stays = λ k e. cc e; ok = tt; armed = λ e. rw e refl; rested = rested },
  )

  goes :
      (b : Bool) (stage : Stage) (t : Shared)
      → is_armed (t.interest fd) ≡ false
      → (b ≡ true → IsAtStage stage (t.objects fd))
      → Leaves (goes_on b fd stage, t)
  goes true stage t unarmed ok = stays stage t unarmed (ok refl)
  goes false stage t unarmed ok = leaves t (unarmed-IsRested (t.interest fd) (t.objects fd) unarmed)

  module _ (o : Outside) (a : Answer) (s : Shared)
      (unarmed : is_armed (s.interest fd) ≡ false) where
    -- A step that writes the connection.
    writes_object :
        (stage : Stage) (c : Connection)
        → IsAtStage stage c
        → Leaves (at fd stage, set_object fd c s)
    writes_object stage c ok =
        stays stage (set_object fd c s) unarmed (rw (set_at_self fd c s.objects) ok)

    -- The call of `epoll_ctl` that ends a handler.
    arms :
        (wanted : Interest) (t : Shared)
        → IsRested wanted (t.objects fd)
        → Leaves (idle, set_interest fd wanted t)
    unfolding epoll_mod
    arms wanted t rested = leaves (set_interest fd wanted t) (
        rw (set_at_self fd (modified wanted (t.interest fd)) t.interest)
          (modified-IsRested wanted (t.interest fd) (t.objects fd) rested))

    on_read-Leaves :
        (r : ReadAnswer) → remaining (s.objects fd) ≡ [] → Leaves (on_read r a.now fd s)
    unfolding append_read_data remaining
    on_read-Leaves (chunk b) quiet =
        let c = s.objects fd in
        writes_object reading (if c.closed then c else append_read_data a.now b c)
          (if_either (λ d. remaining d ≡ []) c.closed c (append_read_data a.now b c) quiet quiet)
    on_read-Leaves no_more quiet = stays renewing s unarmed quiet
    on_read-Leaves ended quiet = stays closing s unarmed tt

    on_extracted-Leaves :
        (p : Connection × Option Bytes) → remaining p.0 ≡ [] → Leaves (on_extracted p fd s)
    unfolding remaining
    on_extracted-Leaves (c, none) quiet =
        arms readable_once (set_object fd (set_processing false c) s)
          (rw (set_at_self fd (set_processing false c) s.objects) (λ e. refl, quiet))
    on_extracted-Leaves (c, some raw) quiet = writes_object (answering raw) c quiet

    on_write-Leaves : (r : WriteAnswer) → Leaves (on_write r fd s)
    on_write-Leaves (returned n) =
        stays (if n == 0 then closing else consuming n) s unarmed
          (if_either (λ stage. IsAtStage stage (s.objects fd)) (n == 0) closing (consuming n) tt tt)
    on_write-Leaves would_block = stays blocked s unarmed tt
    on_write-Leaves write_failed = stays closing s unarmed tt

    -- Every step leaves the descriptor with one owner.
    pub work_at-Leaves :
        (stage : Stage) → IsAtStage stage (s.objects fd) → Leaves (work_at o a fd stage s)
    unfolding work_at clear_write_data remaining
    work_at-Leaves getting_to_read quiet = goes (s.table fd) reading s unarmed (λ e. quiet)
    work_at-Leaves reading quiet = on_read-Leaves a.read quiet
    work_at-Leaves renewing quiet = stays getting_to_process _ unarmed quiet
    work_at-Leaves getting_to_process quiet = goes (s.table fd) extracting s unarmed (λ e. quiet)
    work_at-Leaves extracting quiet =
        on_extracted-Leaves (extract_open (s.objects fd))
          (extract_open-remaining (s.objects fd) ∙ quiet)
    work_at-Leaves (answering raw) quiet =
        goes (not (s.objects fd).closed) answered _ unarmed (λ e. tt)
    work_at-Leaves answered ok =
        writes_object (arming writable_once) (finish_processing (s.objects fd))
          (finish_processing-rests (s.objects fd)).0
    work_at-Leaves getting_to_write ok = goes (s.table fd) testing s unarmed (λ e. tt)
    work_at-Leaves testing ok =
        stays (if is_done (s.objects fd) then clearing else sending) s unarmed (
          if_either (λ stage. IsAtStage stage (s.objects fd)) (is_done (s.objects fd)) clearing
            sending tt tt)
    work_at-Leaves sending ok = on_write-Leaves a.write
    work_at-Leaves (consuming n) ok = stays testing _ unarmed tt
    work_at-Leaves blocked ok =
        writes_object (arming writable_once) (finish_processing (s.objects fd))
          (finish_processing-rests (s.objects fd)).0
    work_at-Leaves clearing ok = writes_object (settled _ _) _ refl
    work_at-Leaves (settled true pending) quiet = stays closing s unarmed tt
    work_at-Leaves (settled false true) quiet = stays getting_to_process _ unarmed quiet
    work_at-Leaves (settled false false) quiet = stays finishing _ unarmed quiet
    work_at-Leaves finishing quiet =
        let (rests, same) = finish_processing-rests (s.objects fd) in
        writes_object (arming readable_once) (finish_processing (s.objects fd))
          (rests, same ∙ quiet)
    work_at-Leaves (arming wanted) rested = arms wanted s rested
    work_at-Leaves closing ok =
        goes (s.table fd) marking (if s.table fd then forget fd s else s)
          (if_either (λ (t : Shared). is_armed (t.interest fd) ≡ false) (s.table fd) (forget fd s) s
            unarmed unarmed)
          (λ e. tt)
    work_at-Leaves marking ok = stays deleting _ unarmed tt
    work_at-Leaves deleting ok = stays shutting _ (rw (set_at_self fd absent s.interest) refl) tt
    work_at-Leaves shutting ok = leaves s (unarmed-IsRested (s.interest fd) (s.objects fd) unarmed)
