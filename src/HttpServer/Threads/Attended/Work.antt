-- ===== src/HttpServer/Threads/Attended/Work.antt =====
-- A worker's step (`handleRead`, `handleWrite`, `processConnectionTask`, `closeConnection`), and its
-- connection.
use mini_server.Prelude.{
  ℕ, ◌≡◌, refl, ap, ◌≢◌, inl, inr, Bool, true, false, not, Option, none, some, Bool-cases,
  if_either, if◌then◌else◌, ◌==◌,
}
use mini_server.Bytes.{Bytes}
use mini_server.Connection.{
  Connection, extract_one_request, append_read_data, set_processing, clear_write_data,
  consume_write_data,
}
use mini_server.Connection.Framing.{extract_one_request_keeps, extract_one_request_waits}
use mini_server.Epoller.{absent, readable_once, writable_once}
use mini_server.HttpServer.{Outside, finish_processing, extract_open, respond}
use mini_server.HttpServer.Handlers.{WriteAnswer, returned, would_block, write_failed, is_done}
use mini_server.HttpServer.Phases.{set_at_self, set_at_ne}
use mini_server.HttpServer.Phases.Answering.{respond-IsAnswered}
use mini_server.HttpServer.Phases.Processing.{extract-cases}
use mini_server.HttpServer.Threads.{
  Stage, getting_to_read, reading, renewing, getting_to_process, extracting, answering, answered,
  getting_to_write, testing, sending, consuming, blocked, clearing, settled, finishing, arming,
  closing, marking, deleting, shutting, at, Shared, Answer, ReadAnswer, chunk, no_more, ended,
  goes_on, on_read, on_extracted, on_write, work_at, set_object,
}
use mini_server.HttpServer.Threads.Attended.{Fits}
use mini_server.HttpServer.Threads.Attended.Leaving.{
  Leaves, stays, writes_object, gone, goes, arms, removed,
}

finish_processing-closed : (c : Connection) → (finish_processing c).closed ≡ c.closed
unfolding finish_processing
finish_processing-closed c =
    if_either (λ (d : Connection). d.closed ≡ c.closed) c.closed c (set_processing false c) refl
      refl

pub extract_open-closed : (c : Connection) → (extract_open c).0.closed ≡ c.closed
extract_open-closed c =
    if_either (λ (p : Connection × Option Bytes). p.0.closed ≡ c.closed) c.closed (c, none)
      (extract_one_request c) refl
      (elim (extract-cases (extract_one_request c)) [
        | inl nothing ↦ ap (λ (d : Connection). d.closed) (extract_one_request_waits c _ nothing).0
        | inr (raw, found) ↦
            ap (λ (d : Connection). d.closed) (extract_one_request_keeps c _ raw found)
      ])

module _ (o : Outside) (a : Answer) (fd : ℕ) (s : Shared)
    (is_open : s.table fd ≡ true → (s.objects fd).closed ≡ false)
    (there : s.table fd ≡ true → s.interest fd ≢ absent) where
  on_read-Leaves : (r : ReadAnswer) → Leaves fd s is_open there (on_read r a.now fd s)
  unfolding append_read_data
  on_read-Leaves (chunk b) =
      let c = s.objects fd in
      writes_object fd s is_open there reading (if c.closed then c else append_read_data a.now b c)
        (if_either (λ (d : Connection). d.closed ≡ c.closed) c.closed c (append_read_data a.now b c)
          refl refl)
        tt
  on_read-Leaves no_more = stays fd s is_open there renewing s refl refl refl tt
  on_read-Leaves ended = stays fd s is_open there closing s refl refl refl tt

  on_extracted-Leaves :
      (p : Connection × Option Bytes)
      → p.0.closed ≡ (s.objects fd).closed
      → Leaves fd s is_open there (on_extracted p fd s)
  on_extracted-Leaves (c, none) same =
      arms fd s is_open there readable_once (set_object fd (set_processing false c) s) refl refl
        refl (rw (set_at_self fd (set_processing false c) s.objects) same)
  on_extracted-Leaves (c, some raw) same =
      writes_object fd s is_open there (answering raw) c same tt

  on_write-Leaves : (r : WriteAnswer) → Leaves fd s is_open there (on_write r fd s)
  on_write-Leaves (returned n) =
      if_either (λ stage. Leaves fd s is_open there (at fd stage, s)) (n == 0) closing (consuming n)
        (stays fd s is_open there closing s refl refl refl tt)
        (stays fd s is_open there (consuming n) s refl refl refl tt)
  on_write-Leaves would_block = stays fd s is_open there blocked s refl refl refl tt
  on_write-Leaves write_failed = stays fd s is_open there closing s refl refl refl tt

  -- An answer is given up only if the connection is closed, and out of the table.
  answers :
      (shut : Bool) (d : Connection)
      → (shut ≡ true → s.table fd ≡ false)
      → d.closed ≡ (s.objects fd).closed
      → Leaves fd s is_open there
          (goes_on (not shut) fd answered, set_object fd (if shut then s.objects fd else d) s)
  answers true d out same = gone fd s is_open there (set_object fd (s.objects fd) s) refl (out refl)
  answers false d out same = writes_object fd s is_open there answered d same tt

  shut_out : (s.objects fd).closed ≡ true → s.table fd ≡ false
  shut_out shut = elim (Bool-cases (s.table fd)) [
    | inl here ↦ cc (shut, is_open here)
    | inr away ↦ away
  ]

  -- Taking the descriptor out of the table is the first step of closing it.
  closing-Leaves : Leaves fd s is_open there (work_at o a fd closing s)
  unfolding work_at
  closing-Leaves = elim (Bool-cases (s.table fd)) [
    | inr out ↦ rw out (gone fd s is_open there s refl out)
    | inl here ↦
        let off = set_at_self fd false s.table in
        rw here (record {
          still_open = λ e. cc (off, e);
          still_there = λ e. cc (off, e);
          has = λ e. cc (off, e);
          fit = off;
          was_there = λ e. cc (off, e);
          other_table = λ j n. set_at_ne fd false s.table j n;
        })
  ]

  pub work_at-Leaves :
      (stage : Stage) → Fits stage (s.table fd) → Leaves fd s is_open there (work_at o a fd stage s)
  unfolding work_at clear_write_data consume_write_data
  work_at-Leaves getting_to_read fit = goes fd s is_open there reading (λ b. tt)
  work_at-Leaves reading fit = on_read-Leaves a.read
  work_at-Leaves renewing fit = stays fd s is_open there getting_to_process _ refl refl refl tt
  work_at-Leaves getting_to_process fit = goes fd s is_open there extracting (λ b. tt)
  work_at-Leaves extracting fit =
      on_extracted-Leaves (extract_open (s.objects fd)) (extract_open-closed (s.objects fd))
  work_at-Leaves (answering raw) fit =
      let c = s.objects fd in
      answers c.closed (respond o s.html_root a.now raw c) shut_out
        (respond-IsAnswered o s.html_root a.now raw c).same_closed
  work_at-Leaves answered fit =
      writes_object fd s is_open there (arming writable_once) _
        (finish_processing-closed (s.objects fd)) refl
  work_at-Leaves getting_to_write fit = goes fd s is_open there testing (λ b. tt)
  work_at-Leaves testing fit =
      if_either (λ stage. Leaves fd s is_open there (at fd stage, s)) (is_done (s.objects fd))
        clearing sending (stays fd s is_open there clearing s refl refl refl tt)
        (stays fd s is_open there sending s refl refl refl tt)
  work_at-Leaves sending fit = on_write-Leaves a.write
  work_at-Leaves (consuming n) fit = writes_object fd s is_open there testing _ refl tt
  work_at-Leaves blocked fit =
      writes_object fd s is_open there (arming writable_once) _
        (finish_processing-closed (s.objects fd)) refl
  work_at-Leaves clearing fit = writes_object fd s is_open there (settled _ _) _ refl tt
  work_at-Leaves (settled true pending) fit = stays fd s is_open there closing s refl refl refl tt
  work_at-Leaves (settled false true) fit =
      stays fd s is_open there getting_to_process _ refl refl refl tt
  work_at-Leaves (settled false false) fit = stays fd s is_open there finishing _ refl refl refl tt
  work_at-Leaves finishing fit =
      writes_object fd s is_open there (arming readable_once) _
        (finish_processing-closed (s.objects fd)) refl
  work_at-Leaves (arming wanted) fit = arms fd s is_open there wanted s fit refl refl refl
  work_at-Leaves closing fit = closing-Leaves
  work_at-Leaves marking fit = removed fd s is_open there deleting _ refl fit fit
  work_at-Leaves deleting fit = removed fd s is_open there shutting _ refl fit fit
  work_at-Leaves shutting fit = gone fd s is_open there s refl fit
