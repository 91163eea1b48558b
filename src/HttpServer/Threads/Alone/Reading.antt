-- ===== src/HttpServer/Threads/Alone/Reading.antt =====
-- `HttpServer::handleRead` and `processConnectionTask`, run by one worker alone.
use mini_server.Prelude.{
  ℕ, ◌≡◌, refl, sym, ap, ◌∙◌, subst, inl, inr, true, false, not, Option, none, some, List, [], ◌∷◌,
  Bool-cases, if◌then◌else◌,
}
use mini_server.Bytes.{Bytes}
use mini_server.Connection.{Connection, append_read_data, set_processing}
use mini_server.Epoller.{readable_once, writable_once}
use mini_server.HttpServer.{
  HttpServer, Outside, put_connection, rearm, renew_timer, finish_processing, process_extracted,
  extract_open, respond, process_connection_task,
}
use mini_server.HttpServer.Handlers.{
  WriteAnswer, ReadEnd, end_of_file, no_more_yet, read_failed, ReadRun, append_chunks, after_reads,
  handle_read,
}
use mini_server.HttpServer.Threads.{
  getting_to_read, reading, renewing, getting_to_process, extracting, answering, answered, arming,
  at, Shared, chunk, no_more, ended, goes_on, on_extracted, work_at, set_object, set_timer,
}
use mini_server.HttpServer.Threads.Attended.Work.{extract_open-closed}
use mini_server.HttpServer.Threads.Alone.{
  Ends, rests, going, taking, last_read, all_reads, seen, IsAt, starting, IsAt-connection,
  put_twice, put_own, stored, renewed, rearmed, arms, closes,
}

module _ (o : Outside) (now fd : ℕ) (answers : ℕ → WriteAnswer) (k : ℕ) where
  -- A response is set, and the descriptor armed for writing.
  answering_ends :
      (raw : Bytes) (d : Connection) (s : Shared) (x : HttpServer)
      → IsAt fd d s x
      → d.closed ≡ false
      → Ends o now answers [] k (at fd (answering raw)) s (
          rearm fd writable_once
            (put_connection fd (finish_processing (respond o x.html_root now raw d)) x))
  unfolding work_at
  answering_ends raw d s x h open_now =
      let root : s.html_root ≡ x.html_root = ap (λ (y : HttpServer). y.html_root) h.same in
      let r = respond o s.html_root now raw d in
      let u = set_object fd r s in
      let y = put_connection fd r x in
      let at_u : IsAt fd r u y = stored fd d s x h r in
      let done = stored fd r u y at_u (finish_processing r) in
      let v = set_object fd (finish_processing r) u in
      let z = put_connection fd (finish_processing r) y in
      let rest : Ends o now answers [] k (at fd answered) u (rearm fd writable_once z) =
        going o now answers [] k fd answered u (rearm fd writable_once z) refl (
          subst
            (λ (e : Connection).
              Ends o now answers [] k (at fd (arming writable_once))
                (set_object fd (finish_processing e) u) (rearm fd writable_once z))
            (sym at_u.own)
            (arms fd (finish_processing r) v z done o now answers k writable_once)) in
      let first : Ends o now answers [] k (at fd (answering raw)) s (rearm fd writable_once z) =
        going o now answers [] k fd (answering raw) s (rearm fd writable_once z) refl (
          subst
            (λ (e : Connection).
              Ends o now answers [] k (goes_on (not e.closed) fd answered)
                (set_object fd (if e.closed then e else respond o s.html_root now raw e) s)
                (rearm fd writable_once z))
            (sym h.own)
            (subst
              (λ b.
                Ends o now answers [] k (goes_on (not b) fd answered)
                  (set_object fd (if b then d else r) s) (rearm fd writable_once z))
              (sym open_now) rest)) in
      subst
        (λ root. Ends o now answers [] k (at fd (answering raw)) s (
          rearm fd writable_once
            (put_connection fd (finish_processing (respond o root now raw d)) x)))
        root
        (subst (λ y. Ends o now answers [] k (at fd (answering raw)) s (rearm fd writable_once y))
          (put_twice fd (finish_processing r) r x) first)

  open_found : (c d : Connection) (raw : Bytes) → extract_open c ≡ (d, some raw) → d.closed ≡ false
  open_found c d raw e = elim (Bool-cases c.closed) [
    | inl shut ↦ cc (rw shut at e)
    | inr open_now ↦ sym (ap (λ p. p.0.closed) e) ∙ extract_open-closed c ∙ open_now
  ]

  extracted_ends :
      (c : Connection) (s : Shared) (x : HttpServer) (p : Connection × Option Bytes)
      → IsAt fd c s x
      → extract_open c ≡ p
      → Ends o now answers [] k
          (on_extracted p fd s).0
          (on_extracted p fd s).1
          (process_extracted o now fd p x)
  extracted_ends c s x (d, none) h e =
      let e = set_processing false d in
      let kept = stored fd c s x h e in
      let u = set_object fd e s in (_, rests, (rearmed fd e u _ kept readable_once).same)
  extracted_ends c s x (d, some raw) h e =
      let rest =
        answering_ends raw d (set_object fd d s) (put_connection fd d x) (stored fd c s x h d)
          (open_found c d raw e) in
      subst
        (λ y.
          Ends o now answers [] k (at fd (answering raw)) (set_object fd d s)
            (rearm fd writable_once y))
        (put_twice fd _ d x) rest

  pub process_ends :
      (c : Connection) (s : Shared) (x : HttpServer)
      → IsAt fd c s x
      → Ends o now answers [] k (at fd getting_to_process) s (process_connection_task o now fd x)
  unfolding work_at process_connection_task
  process_ends c s x h =
      let result = process_connection_task o now fd x in
      let known : process_extracted o now fd (extract_open c) x ≡ result = sym (
        ap
          (λ (m : Option Connection). elim m [
            | none ↦ x
            | some c ↦ process_extracted o now fd (extract_open c) x
          ])
          (IsAt-connection fd c s x h)) in
      let extracts : Ends o now answers [] k (at fd extracting) s result =
        going o now answers [] k fd extracting s result refl (
          subst
            (λ (e : Connection).
              Ends o now answers [] k (on_extracted (extract_open e) fd s).0
                (on_extracted (extract_open e) fd s).1 result)
            (sym h.own)
            (subst
              (λ y.
                Ends o now answers [] k (on_extracted (extract_open c) fd s).0
                  (on_extracted (extract_open c) fd s).1 y)
              known (extracted_ends c s x (extract_open c) h refl))) in
      going o now answers [] k fd getting_to_process s result refl (
        subst (λ b. Ends o now answers [] k (goes_on b fd extracting) s result) (sym h.there)
          extracts)

  last_ends :
      (e : ReadEnd) (c : Connection) (s : Shared) (x : HttpServer)
      → IsAt fd c s x
      → Ends o now answers (last_read e ∷ []) k (at fd reading) s (after_reads o now fd e x)
  unfolding work_at
  last_ends end_of_file c s x h =
      taking o now answers [] k fd ended s _ (closes fd c s x h o now answers k)
  last_ends read_failed c s x h =
      taking o now answers [] k fd ended s _ (closes fd c s x h o now answers k)
  last_ends no_more_yet c s x h =
      let result = process_connection_task o now fd (renew_timer now fd x) in
      taking o now answers [] k fd no_more s result (
        going o now answers [] k fd renewing s result refl
          (process_ends c (set_timer now fd s) (renew_timer now fd x) (renewed fd c s x h now)))

  reading_ends :
      (e : ReadEnd) (bs : List Bytes) (c : Connection) (s : Shared) (x : HttpServer)
      → IsAt fd c s x
      → Ends o now answers
          (all_reads e bs)
          k
          (at fd reading)
          s
          (after_reads o now fd e (put_connection fd (append_chunks now bs c) x))
  unfolding work_at append_chunks
  reading_ends e [] c s x h =
      subst
        (λ y. Ends o now answers (last_read e ∷ []) k (at fd reading) s (after_reads o now fd e y))
        (sym (put_own fd c x (IsAt-connection fd c s x h))) (last_ends e c s x h)
  reading_ends e (b ∷ bs) c s x h =
      let d = if c.closed then c else append_read_data now b c in
      let result = after_reads o now fd e (put_connection fd (append_chunks now bs d) x) in
      taking o now answers (all_reads e bs) k fd (chunk b) s result (
        subst
          (λ (f : Connection).
            Ends o now answers (all_reads e bs) k (at fd reading)
              (set_object fd (if f.closed then f else append_read_data now b f) s) result)
          (sym h.own)
          (subst
            (λ y.
              Ends o now answers (all_reads e bs) k (at fd reading) (set_object fd d s)
                (after_reads o now fd e y))
            (put_twice fd (append_chunks now bs d) d x)
            (reading_ends e bs d (set_object fd d s) (put_connection fd d x)
              (stored fd c s x h d))))

  -- `handleRead` of a connection in the table.
  pub read_ends :
      (run : ReadRun) (s : Shared)
      → s.table fd ≡ true
      → Ends o now answers
          (all_reads run.last run.chunks)
          k
          (at fd getting_to_read)
          s
          (handle_read o now run fd (seen s))
  unfolding work_at handle_read
  read_ends run s there =
      let c = s.objects fd in
      let h = starting fd s there in
      let result = handle_read o now run fd (seen s) in
      let known : after_reads o now fd run.last
            (put_connection fd (append_chunks now run.chunks c) (seen s))
          ≡ result =
        sym (
          ap
            (λ (m : Option Connection). elim m [
              | none ↦ seen s
              | some c ↦
                  after_reads o now fd run.last
                    (put_connection fd (append_chunks now run.chunks c) (seen s))
            ])
            (IsAt-connection fd c s (seen s) h)) in
      going o now answers (all_reads run.last run.chunks) k fd getting_to_read s result refl (
        subst
          (λ b.
            Ends o now answers (all_reads run.last run.chunks) k (goes_on b fd reading) s result)
          (sym there)
          (subst (λ y. Ends o now answers (all_reads run.last run.chunks) k (at fd reading) s y)
            known (reading_ends run.last run.chunks c s (seen s) h)))
