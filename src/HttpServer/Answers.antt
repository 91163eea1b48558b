-- ===== src/HttpServer/Answers.antt =====
-- From the bytes of a request in the read buffer to the bytes of its response.
use mathlib.Core.Path.{ap₂}
use mini_server.Prelude.{
  ℕ, ◌<◌, ◌≡◌, refl, ap, ◌∙◌, Bool, true, false, not, Option, none, some, ◌++◌, if◌then◌else◌,
  length,
}
use mini_server.Bytes.{Bytes}
use mini_server.Connection.{
  Connection, size_mod, append_write_data, set_processing, extract_one_request,
}
use mini_server.Connection.Sending.{
  remaining, append_write_data-remaining, set_mapped_write_data-remaining,
}
use mini_server.Connection.Framing.{IsRequest, after_read, extract_one_request_complete}
use mini_server.HttpRequest.{HttpRequest, http_request, parse}
use mini_server.RequestRouter.{handles, route}
use mini_server.HttpResponse.{MappedFile, contents}
use mini_server.HttpResponse.Page.{PreparedResponse, prepare, payload, payload_of}
use mini_server.Epoller.{writable_once, disarmed, epoll_mod, modified}
use mini_server.HttpServer.{
  HttpServer, Outside, bad_request, write_prepared, routed_text, answer, respond_parsed, respond,
  process_extracted, process_connection_task,
}
use mini_server.HttpServer.Phases.{set_at_self}
use mini_server.HttpServer.Phases.Answering.{respond-IsAnswered}
use mini_server.HttpServer.Phases.Processing.{finish_processing-open, if_false, process-some}

-- The bytes of the response to a parse result: the error text; the router's reply; the header with
-- the page or the file.
abbrev prepared_bytes : PreparedResponse → Bytes
prepared_bytes r = r.header ++ payload r

unfoldable pub response_bytes : Outside → Bytes → Bool × HttpRequest → Bytes
response_bytes o root (false, r) = bad_request
response_bytes o root (true, r) =
    if handles r
    then routed_text (route o.users r) r.keep_alive
    else prepared_bytes (prepare o.files r.path r.keep_alive root)

-- Whether the connection is closed when the response is sent.
abbrev closes_after : Bool × HttpRequest → Bool
closes_after (false, r) = true
closes_after (true, r) = not r.keep_alive

remaining-if :
    (b : Bool) (c d : Connection)
    → remaining (if b then c else d) ≡ (if b then remaining c else remaining d)
remaining-if true c d = refl
remaining-if false c d = refl

write_prepared-remaining :
    (now : ℕ) (r : PreparedResponse) (f : Option MappedFile) (c : Connection)
    → remaining (write_prepared now r f c) ≡ r.header ++ payload_of f r.body
unfolding write_prepared
write_prepared-remaining now r none c = (append_write_data-remaining now (r.header ++ r.body) c).0
write_prepared-remaining now r (some f) c =
    (set_mapped_write_data-remaining now r.header (contents f) c).0

module _ (o : Outside) (root : Bytes) (now : ℕ) where
  answer-remaining :
      (r : HttpRequest) (c : Connection)
      → (remaining (answer o root now r c) ≡ response_bytes o root (true, r))
        × ((answer o root now r c).close_after_write ≡ not r.keep_alive)
  unfolding answer response_bytes remaining
  answer-remaining r c =
      let p = prepare o.files r.path r.keep_alive root in
      let text = routed_text (route o.users r) r.keep_alive in
      (
        remaining-if (handles r) (append_write_data now text c) (write_prepared now p p.file c)
            ∙ ap₂ (λ x y. if handles r then x else y) (append_write_data-remaining now text c).0
                (write_prepared-remaining now p p.file c),
        refl,
      )

  parsed-remaining :
      (p : Bool × HttpRequest) (c : Connection)
      → (remaining (respond_parsed o root now p c) ≡ response_bytes o root p)
        × ((respond_parsed o root now p c).close_after_write ≡ closes_after p)
  unfolding response_bytes remaining
  parsed-remaining (true, r) c = answer-remaining r c
  parsed-remaining (false, r) c = ((append_write_data-remaining now bad_request c).0, refl)

  pub respond-remaining :
      (raw : Bytes) (c : Connection)
      → (remaining (respond o root now raw c) ≡ response_bytes o root (parse raw http_request))
        × ((respond o root now raw c).close_after_write ≡ closes_after (parse raw http_request))
  unfolding respond
  respond-remaining raw c = parsed-remaining (parse raw http_request) c

-- The state `t` of `fd` after a request that parsed to `p`, with `rest` behind it in the buffer.
pub record IsResponse (o : Outside) (root rest : Bytes) (p : Bool × HttpRequest) (t : HttpServer)
    (fd : ℕ) : Type 0 where
  pub conn : Connection
  pub at_fd : t.connections fd ≡ some conn
  pub armed : t.interest fd ≡ writable_once
  pub bytes_is : remaining conn ≡ response_bytes o root p
  pub rest_is : conn.read_buf ≡ rest
  pub closing : conn.close_after_write ≡ closes_after p

module _ (o : Outside) (now fd : ℕ) (s : HttpServer) where
  answered-IsResponse :
      (c : Connection) (raw : Bytes)
      → c.closed ≡ false
      → s.interest fd ≡ disarmed
      → IsResponse o s.html_root c.read_buf
          (parse raw http_request)
          (process_extracted o now fd (c, some raw) s)
          fd
  unfolding remaining epoll_mod
  answered-IsResponse c raw open_now un =
      let d = respond o s.html_root now raw c in
      let a = respond-IsAnswered o s.html_root now raw c in
      let (bytes, closing) = respond-remaining o s.html_root now raw c in
      rw (finish_processing-open d (a.same_closed ∙ open_now)) (record {
        conn = set_processing false d;
        at_fd = set_at_self fd (some (set_processing false d)) s.connections;
        armed =
            set_at_self fd (modified writable_once (s.interest fd)) s.interest
            ∙ ap (modified writable_once) un;
        bytes_is = bytes;
        rest_is = a.same_read;
        closing = closing;
      })

  -- A worker at an open connection whose buffer starts with a whole request shorter than 2^64 bytes
  -- sets the bytes of its response to be sent, leaves what follows the request in the buffer, arms the
  -- descriptor for writing, and notes whether to close after it.
  pub process-IsResponse :
      (c : Connection) (raw rest : Bytes) (head_len : ℕ)
      → s.connections fd ≡ some c
      → s.interest fd ≡ disarmed
      → c.closed ≡ false
      → IsRequest raw head_len
      → length raw < size_mod
      → c.read_buf ≡ raw ++ rest
      → IsResponse o s.html_root rest
          (parse raw http_request)
          (process_connection_task o now fd s)
          fd
  process-IsResponse c raw rest head_len at un open_now r fits e =
      rw
        (
          process-some o now fd s c at,
          if_false c.closed (c, none) (extract_one_request c) open_now,
          extract_one_request_complete c raw rest head_len r fits e,
        )
        (answered-IsResponse (after_read c rest) raw open_now un)
