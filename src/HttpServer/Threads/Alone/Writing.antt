-- ===== src/HttpServer/Threads/Alone/Writing.antt =====
-- `HttpServer::handleWrite`, run by one worker alone.
use mini_server.Prelude.{
  ℕ, zero, suc, ◌+◌, ◌<◌, ◌≡◌, refl, sym, ap, subst, inl, inr, Bool, true, false, Option, none,
  some, [], arith, Bool-cases, if◌then◌else◌, length, ne→==, take,
}
use mini_server.Connection.{Connection, consume_write_data}
use mini_server.Connection.Sending.{
  remaining, IsSending, length-remaining, consume_write_data-remaining,
}
use mini_server.HttpServer.{HttpServer, Outside, put_connection}
use mini_server.HttpServer.Handlers.{
  WriteAnswer, returned, would_block, write_failed, drained, waits, broken, Written, iov, concat,
  sent_first, write_loop, write_fuel, written, is_done, after_writes, handle_write,
}
use mini_server.HttpServer.Sending.{is_done-false, shorter}
use mini_server.HttpServer.Threads.{
  getting_to_write, testing, sending, consuming, blocked, clearing, closing, at, Shared, goes_on,
  work_at, set_object,
}
use mini_server.HttpServer.Threads.Alone.{
  Ends, going, giving, seen, put_own, IsAt, starting, IsAt-connection,
}
use mini_server.HttpServer.Threads.Alone.Ending.{again, drained_ends, blocked_ends, broken_ends}

module _ (o : Outside) (now fd : ℕ) where
  abbrev after_loop : Written → HttpServer → HttpServer
  after_loop w x = after_writes o now fd w.result w.conn x

  -- One call of `writev`, and the rest of the loop if it took some bytes.
  module _ (fuel : ℕ) (answers : ℕ → WriteAnswer) (k : ℕ) (c b : Connection) (s : Shared)
      (x : HttpServer) (h : IsAt fd c s (put_connection fd c x)) (known : x.connections fd ≡ some b)
      (not_done : is_done c ≡ false) where
    abbrev result : HttpServer
    result = after_loop (write_loop (suc fuel) answers k c) x

    taken_ends :
        (n : ℕ)
        → answers k ≡ returned (suc n)
        → (let d = consume_write_data (suc n) c in
            Ends o now answers []
              (k + 1)
              (at fd testing)
              (set_object fd d s)
              (after_loop (write_loop fuel answers (k + 1) d) x))
        → Ends o now answers [] k (at fd sending) s result
    unfolding work_at write_loop
    taken_ends n taken rest =
        let d = consume_write_data (suc n) c in
        let not_zero = ne→== (suc n) 0 (omega arith) in
        let next : write_loop (suc fuel) answers k c
            ≡ sent_first (take (suc n) (concat (iov c))) (write_loop fuel answers (k + 1) d) =
          rw (not_done, taken, not_zero) refl in
        giving o now answers [] k fd (returned (suc n)) s result taken (
          subst
            (λ b.
              Ends o now answers [] (k + 1) (at fd (if b then closing else consuming (suc n))) s
                result)
            (sym not_zero)
            (going o now answers [] (k + 1) fd (consuming (suc n)) s result refl (
              subst
                (λ (e : Connection).
                  Ends o now answers [] (k + 1) (at fd testing)
                    (set_object fd (consume_write_data (suc n) e) s) result)
                (sym h.own)
                (subst
                  (λ w.
                    Ends o now answers [] (k + 1) (at fd testing) (set_object fd d s)
                      (after_loop w x))
                  (sym next) rest))))

    sending_ends :
        (a : WriteAnswer)
        → answers k ≡ a
        → ((n : ℕ)
            → a ≡ returned (suc n)
            → (let d = consume_write_data (suc n) c in
                Ends o now answers []
                  (k + 1)
                  (at fd testing)
                  (set_object fd d s)
                  (after_loop (write_loop fuel answers (k + 1) d) x)))
        → Ends o now answers [] k (at fd sending) s result
    unfolding work_at write_loop after_writes
    sending_ends (returned zero) e rest =
        let stop : write_loop (suc fuel) answers k c
            ≡ record { result = broken; conn = c; bytes = [] } =
          rw (not_done, e) refl in
        giving o now answers [] k fd (returned 0) s result e (
          subst (λ w. Ends o now answers [] (k + 1) (at fd closing) s (after_loop w x)) (sym stop)
            (broken_ends o now fd answers (k + 1) c b s x h known))
    sending_ends (returned (suc n)) e rest = taken_ends n e (rest n refl)
    sending_ends would_block e rest =
        let stop : write_loop (suc fuel) answers k c
            ≡ record { result = waits; conn = c; bytes = [] } =
          rw (not_done, e) refl in
        giving o now answers [] k fd would_block s result e (
          subst (λ w. Ends o now answers [] (k + 1) (at fd blocked) s (after_loop w x)) (sym stop)
            (blocked_ends o now fd answers (k + 1) c s x h))
    sending_ends write_failed e rest =
        let stop : write_loop (suc fuel) answers k c
            ≡ record { result = broken; conn = c; bytes = [] } =
          rw (not_done, e) refl in
        giving o now answers [] k fd write_failed s result e (
          subst (λ w. Ends o now answers [] (k + 1) (at fd closing) s (after_loop w x)) (sym stop)
            (broken_ends o now fd answers (k + 1) c b s x h known))

  loop_ends :
      (fuel : ℕ) (answers : ℕ → WriteAnswer) (k : ℕ) (c b : Connection) (s : Shared)
      (x : HttpServer)
      → IsAt fd c s (put_connection fd c x)
      → x.connections fd ≡ some b
      → IsSending c
      → length (remaining c) < fuel
      → Ends o now answers [] k (at fd testing) s (after_loop (write_loop fuel answers k c) x)
  unfolding work_at write_loop after_writes
  loop_ends zero answers k c b s x h known sending_now more = absurd (omega arith)
  loop_ends (suc fuel) answers k c b s x h known sending_now more =
      let end = after_loop (write_loop (suc fuel) answers k c) x in
      let turn : Bool → Type 0 =
        λ b. Ends o now answers [] k (at fd (if b then clearing else sending)) s end in
      going o now answers [] k fd testing s end refl (
        subst (λ (e : Connection). turn (is_done e)) (sym h.own)
          (elim (Bool-cases (is_done c)) [
            | inl done ↦
                let stop : write_loop (suc fuel) answers k c
                    ≡ record { result = drained; conn = c; bytes = [] } =
                  rw done refl in
                subst turn (sym done) (
                  subst (λ w. Ends o now answers [] k (at fd clearing) s (after_loop w x))
                    (sym stop) (drained_ends o now fd answers k c s x h))
            | inr not_done ↦ subst turn (sym not_done) (
                sending_ends fuel answers k c b s x h known not_done (answers k) refl (λ n taken.
                  let d = consume_write_data (suc n) c in
                  loop_ends fuel answers (k + 1) d b (set_object fd d s) x
                    (again o now fd answers k c d s x h) known
                    (consume_write_data-remaining (suc n) c sending_now).1
                    (shorter n fuel c sending_now (is_done-false c not_done) more)))
          ]))

  -- `handleWrite` of a connection in the table.
  pub write_ends :
      (answers : ℕ → WriteAnswer) (s : Shared)
      → s.table fd ≡ true
      → IsSending (s.objects fd)
      → Ends o now answers [] 0 (at fd getting_to_write) s (handle_write o now answers fd (seen s))
  unfolding work_at handle_write written write_fuel
  write_ends answers s there sending_now =
      let c = s.objects fd in
      let x = seen s in
      let h = starting fd s there in
      let known_connection = IsAt-connection fd c s x h in
      let result = handle_write o now answers fd x in
      let known : after_loop (written answers c) x ≡ result = sym (
        ap
          (λ (m : Option Connection). elim m [
            | none ↦ x
            | some c ↦ after_loop (written answers c) x
          ])
          known_connection) in
      let at_c : IsAt fd c s (put_connection fd c x) =
        subst (λ y. IsAt fd c s y) (sym (put_own fd c x known_connection)) h in
      going o now answers [] 0 fd getting_to_write s result refl (
        subst (λ b. Ends o now answers [] 0 (goes_on b fd testing) s result) (sym there)
          (subst (λ y. Ends o now answers [] 0 (at fd testing) s y) known
            (loop_ends (write_fuel c) answers 0 c c s x at_c known_connection sending_now
              (omega (arith, length-remaining c)))))
