-- ===== src/HttpServer/Phases/Answering.antt =====
-- The response that `HttpServer::processConnectionTask` sets for a request.
use mini_server.Prelude.{
  ℕ, ◌≡◌, refl, Bool, true, false, not, Option, none, some, ◌++◌, if◌then◌else◌,
}
use mini_server.Bytes.{Bytes}
use mini_server.Connection.{Connection, append_write_data, set_mapped_write_data}
use mini_server.Connection.Sending.{
  IsSending, append_write_data-remaining, set_mapped_write_data-remaining,
}
use mini_server.HttpRequest.{HttpRequest, http_request, parse}
use mini_server.RequestRouter.{handles, route}
use mini_server.HttpResponse.{MappedFile, contents}
use mini_server.HttpResponse.Page.{PreparedResponse, prepare}
use mini_server.HttpServer.{
  Outside, write_prepared, routed_text, answer, respond_parsed, respond, bad_request,
}

-- A response is set in the connection `c`, which is not closed by that.
pub record IsAnswered (c d : Connection) : Type 0 where
  pub same_closed : d.closed ≡ c.closed
  pub same_read : d.read_buf ≡ c.read_buf
  pub sending : IsSending d

append-IsAnswered :
    (now : ℕ) (b : Bytes) (c : Connection) → IsAnswered c (append_write_data now b c)
unfolding append_write_data
append-IsAnswered now b c = record {
  same_closed = refl;
  same_read = refl;
  sending = (append_write_data-remaining now b c).1;
}

mapped-IsAnswered :
    (now : ℕ) (h f : Bytes) (c : Connection) → IsAnswered c (set_mapped_write_data now h f c)
unfolding set_mapped_write_data
mapped-IsAnswered now h f c = record {
  same_closed = refl;
  same_read = refl;
  sending = (set_mapped_write_data-remaining now h f c).1;
}

flag-IsAnswered :
    (b : Bool) (c d : Connection)
    → IsAnswered c d
    → IsAnswered c (record d { close_after_write = b })
flag-IsAnswered b c d h = record {
  same_closed = h.same_closed;
  same_read = h.same_read;
  sending = record {
    header_fits = h.sending.header_fits;
    file_fits = h.sending.file_fits;
    in_order = h.sending.in_order;
  };
}

prepared-IsAnswered :
    (now : ℕ) (r : PreparedResponse) (f : Option MappedFile) (c : Connection)
    → IsAnswered c (write_prepared now r f c)
unfolding write_prepared
prepared-IsAnswered now r none c = append-IsAnswered now (r.header ++ r.body) c
prepared-IsAnswered now r (some f) c = mapped-IsAnswered now r.header (contents f) c

if-IsAnswered :
    (b : Bool) (c d e : Connection)
    → IsAnswered c d
    → IsAnswered c e
    → IsAnswered c (if b then d else e)
if-IsAnswered true c d e h k = h
if-IsAnswered false c d e h k = k

module _ (o : Outside) (root : Bytes) (now : ℕ) where
  answer-IsAnswered : (r : HttpRequest) (c : Connection) → IsAnswered c (answer o root now r c)
  unfolding answer
  answer-IsAnswered r c =
      let p = prepare o.files r.path r.keep_alive root in
      flag-IsAnswered (not r.keep_alive) c _ (
        if-IsAnswered (handles r) c _ _
          (append-IsAnswered now (routed_text (route o.users r) r.keep_alive) c)
          (prepared-IsAnswered now p p.file c))

  parsed-IsAnswered :
      (p : Bool × HttpRequest) (c : Connection) → IsAnswered c (respond_parsed o root now p c)
  parsed-IsAnswered (true, r) c = answer-IsAnswered r c
  parsed-IsAnswered (false, r) c =
      flag-IsAnswered true c (append_write_data now bad_request c)
        (append-IsAnswered now bad_request c)

  -- Every extracted text gets a response.
  pub respond-IsAnswered : (raw : Bytes) (c : Connection) → IsAnswered c (respond o root now raw c)
  unfolding respond
  respond-IsAnswered raw c = parsed-IsAnswered (parse raw http_request) c
