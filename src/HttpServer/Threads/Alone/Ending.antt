-- ===== src/HttpServer/Threads/Alone/Ending.antt =====
-- The ends of `HttpServer::handleWrite`, run by one worker alone: all is written, the socket is full, or
-- the connection is closed.
use mini_server.Prelude.{
  ℕ, ◌≡◌, refl, sym, ap, ◌∙◌, subst, Bool, true, false, Option, none, some, [], if◌then◌else◌,
}
use mini_server.Connection.{Connection, has_pending_read}
use mini_server.Epoller.{readable_once, writable_once}
use mini_server.HttpServer.{
  HttpServer, Outside, put_connection, rearm, renew_timer, without_connection, close_connection,
  finish_processing, process_connection_task,
}
use mini_server.HttpServer.Handlers.{WriteAnswer, after_drained}
use mini_server.HttpServer.Phases.{set_at_self}
use mini_server.HttpServer.Phases.Writing.{cleared}
use mini_server.HttpServer.Threads.{
  blocked, clearing, settled, finishing, arming, closing, at, Shared, work_at, set_object,
  set_timer,
}
use mini_server.HttpServer.Threads.Alone.{
  Ends, going, set_at_twice, put_twice, IsAt, stored, renewed, arms, closes,
}
use mini_server.HttpServer.Threads.Alone.Reading.{process_ends}

module _ (o : Outside) (now fd : ℕ) (answers : ℕ → WriteAnswer) (k : ℕ) where
  -- A connection that is put twice.
  pub again :
      (c d : Connection) (s : Shared) (x : HttpServer)
      → IsAt fd c s (put_connection fd c x)
      → IsAt fd d (set_object fd d s) (put_connection fd d x)
  again c d s x h =
      subst (λ y. IsAt fd d (set_object fd d s) y) (put_twice fd d c x)
        (stored fd c s (put_connection fd c x) h d)

  finishing_ends :
      (c : Connection) (s : Shared) (x : HttpServer)
      → IsAt fd c s x
      → Ends o now answers [] k
          (at fd finishing)
          s
          (rearm fd readable_once (put_connection fd (finish_processing c) x))
  unfolding work_at
  finishing_ends c s x h =
      let d = finish_processing c in
      let result = rearm fd readable_once (put_connection fd d x) in
      going o now answers [] k fd finishing s result refl (
        subst
          (λ (e : Connection).
            Ends o now answers [] k (at fd (arming readable_once))
              (set_object fd (finish_processing e) s) result)
          (sym h.own)
          (arms fd d (set_object fd d s) (put_connection fd d x) (stored fd c s x h d) o now answers
            k readable_once))

  settled_ends :
      (closes_it pending : Bool) (c : Connection) (s : Shared) (x : HttpServer)
      → IsAt fd c s x
      → Ends o now answers [] k (at fd (settled closes_it pending)) s (
          if closes_it
          then close_connection fd x
          else if pending
          then process_connection_task o now fd (renew_timer now fd x)
          else rearm fd readable_once
              (put_connection fd (finish_processing c) (renew_timer now fd x)))
  unfolding work_at
  settled_ends true pending c s x h =
      going o now answers [] k fd (settled true pending) s _ refl
        (closes fd c s x h o now answers k)
  settled_ends false true c s x h = going o now answers [] k fd (settled false true) s _ refl (
      process_ends o now fd answers k c (set_timer now fd s) (renew_timer now fd x)
        (renewed fd c s x h now))
  settled_ends false false c s x h =
      going o now answers [] k fd (settled false false) s _ refl
        (finishing_ends c (set_timer now fd s) (renew_timer now fd x) (renewed fd c s x h now))

  pub drained_ends :
      (c : Connection) (s : Shared) (x : HttpServer)
      → IsAt fd c s (put_connection fd c x)
      → Ends o now answers [] k (at fd clearing) s (after_drained o now fd c x)
  unfolding work_at after_drained
  drained_ends c s x h =
      let result = after_drained o now fd c x in
      going o now answers [] k fd clearing s result refl (
        subst
          (λ (e : Connection).
            Ends o now answers [] k (at fd (settled e.close_after_write (has_pending_read e)))
              (set_object fd (cleared e) s) result)
          (sym h.own)
          (settled_ends c.close_after_write (has_pending_read c) (cleared c)
            (set_object fd (cleared c) s) (put_connection fd (cleared c) x)
            (again c (cleared c) s x h)))

  pub blocked_ends :
      (c : Connection) (s : Shared) (x : HttpServer)
      → IsAt fd c s (put_connection fd c x)
      → Ends o now answers [] k
          (at fd blocked)
          s
          (rearm fd writable_once (put_connection fd (finish_processing c) x))
  unfolding work_at
  blocked_ends c s x h =
      let d = finish_processing c in
      let result = rearm fd writable_once (put_connection fd d x) in
      going o now answers [] k fd blocked s result refl (
        subst
          (λ (e : Connection).
            Ends o now answers [] k (at fd (arming writable_once))
              (set_object fd (finish_processing e) s) result)
          (sym h.own)
          (arms fd d (set_object fd d s) (put_connection fd d x) (again c d s x h) o now answers k
            writable_once))

  close_connection_without :
      (c : Connection) (x : HttpServer)
      → x.connections fd ≡ some c
      → close_connection fd x ≡ without_connection fd x
  unfolding close_connection
  close_connection_without c x e =
      ap (λ (m : Option Connection). elim m [ none ↦ x | some c ↦ without_connection fd x ]) e

  pub broken_ends :
      (c b : Connection) (s : Shared) (x : HttpServer)
      → IsAt fd c s (put_connection fd c x)
      → x.connections fd ≡ some b
      → Ends o now answers [] k (at fd closing) s (close_connection fd x)
  broken_ends c b s x h known =
      let y = put_connection fd c x in
      subst (λ z. Ends o now answers [] k (at fd closing) s z)
        (close_connection_without c y (set_at_self fd (some c) x.connections)
          ∙ ap (λ m. record (without_connection fd x) { connections = m })
              (set_at_twice fd none (some c) x.connections)
          ∙ sym (close_connection_without b x known))
        (closes fd c s y h o now answers k)
