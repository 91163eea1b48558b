-- ===== src/HttpServer/Tests.antt =====
-- Runs of the server, and its theorems at concrete inputs.
mod Loop
mod Lifecycle
mod Traffic
mod Threads
use mini_server.HttpResponse.Page.{prepare}
use mini_server.TimerHeap.{
  remove, pop_expired, pop_loop, add_or_update, push, erase, next_version, is_current,
}
use mini_server.Prelude.{
  ℕ, ◌+◌, ◌≡◌, refl, sym, ap, inl, true, false, Option, none, some, [], ◌∷◌, ◌++◌, arith,
  if◌then◌else◌, ◌==◌,
}
use mini_server.Bytes.{Bytes, codes, find, starts_with, beq}
use mini_server.Bytes.Find.{find-some}
use mini_server.Connection.{
  Connection, connection, header_end_mark, parse_content_length, append_write_data,
  extract_one_request, extract_at, total_len, append_read_data, consume_write_data, has_write_data,
}
use mini_server.Connection.Framing.{IsRequest}
use mini_server.Connection.Sending.{remaining, IsSending}
use mini_server.HttpRequest.{
  http_request, parse, parse_loop, parse_line, match_request_line, match_group, match_version,
  match_end,
}
use mini_server.RequestRouter.{handles}
use mini_server.HttpResponse.{not_opened}
use mini_server.Epoller.{disarmed, epoll_add, epoll_mod}
use mini_server.HttpServer.{
  HttpServer, Outside, reads, accept_one, close_connection, dispatch, begin_processing,
  finish_processing, process_connection_task, bad_request, respond, add_or_update, answer, prepare,
  handles,
}
use mini_server.HttpServer.Handlers.{
  ReadRun, no_more_yet, WriteAnswer, returned, would_block, written, write_loop, write_fuel, iov,
  is_done, handle_read, append_chunks, close_idle_connections, close_all,
}
use mini_server.HttpServer.Steps.{
  accepts, is_readable, works, sweeps, step, http_server, Reaches, starts, steps,
}
use mini_server.HttpServer.Sending.{IsWritten, written-IsWritten}
use mini_server.HttpServer.Phases.{AllInPhase}
use mini_server.HttpServer.Phases.Reaching.{Reaches-AllInPhase}
use mini_server.HttpServer.Answers.{IsResponse, process-IsResponse}

-- No file is there, and no user.
abbrev pub outside : Outside
outside = record {
  files = λ p. not_opened;
  users = record { register_user = λ u p. false; login_user = λ u p. false };
}

abbrev pub start : HttpServer
start = http_server 30 (codes "w")

abbrev pub accepted : HttpServer
accepted = step outside 0 start (accepts 5 (codes "10.0.0.1") true)

abbrev pub handed_over : HttpServer
handed_over = step outside 1 accepted (is_readable 5)

-- A client is accepted and sends bytes: its descriptor waits for a worker.
abbrev pub handed_over-Reaches : Reaches start handed_over
handed_over-Reaches =
    steps outside 1 (is_readable 5)
      (steps outside 0 (accepts 5 (codes "10.0.0.1") true) starts (refl, refl)) tt

Reaches-AllInPhase_example : AllInPhase handed_over
Reaches-AllInPhase_example =
    Reaches-AllInPhase 30 (codes "w") handed_over handed_over-Reaches (tt, ((refl, refl), tt))

one_task : handed_over.tasks ≡ reads 5 ∷ []
unfolding step accept_one epoll_add dispatch begin_processing connection
one_task = refl

abbrev sending : Connection
sending = append_write_data 0 (codes "HTTP/1.1 200 OK") (connection 5 (codes "10.0.0.1") 0)

sending-IsSending : IsSending sending
unfolding append_write_data
sending-IsSending = record {
  header_fits = omega arith;
  file_fits = omega arith;
  in_order = inl refl;
}

-- The kernel takes four bytes and no more.
abbrev four_bytes : ℕ → WriteAnswer
four_bytes k = if k == 0 then returned 4 else would_block

written-IsWritten_example : IsWritten sending (written four_bytes sending)
written-IsWritten_example = written-IsWritten four_bytes sending sending-IsSending

four_sent : (written four_bytes sending).bytes ≡ codes "HTTP"
unfolding written write_loop write_fuel iov is_done has_write_data append_write_data
    consume_write_data connection
four_sent = refl

-- A worker at a connection with one request in its buffer.
abbrev pub get_text : Bytes
get_text = codes "GET /a HTTP/1.1\r\n\r\n"

abbrev busy : Connection
busy = record {
  fd = 5;
  peer_ip = codes "10.0.0.1";
  read_buf = get_text ++ codes "GET";
  write_buf = [];
  mapped_file = none;
  write_offset = 0;
  file_offset = 0;
  write_ready = false;
  close_after_write = false;
  processing = true;
  closed = false;
  last_active = 0;
}

abbrev working : HttpServer
working = record start { connections = λ fd. some busy; interest = λ fd. disarmed }

get_mark : find header_end_mark get_text ≡ some 15
unfolding find starts_with
get_mark = refl

get_length : parse_content_length get_text ≡ 0
unfolding parse_content_length find starts_with
get_length = refl

get-IsRequest : IsRequest get_text 19
get-IsRequest = record {
  mark = 15;
  head_ends = find-some header_end_mark get_text 15 get_mark;
  head_len_is = refl;
  body_len_is = ap (λ n. 19 + n) (sym get_length);
}

process-IsResponse_example :
    IsResponse outside
      (codes "w")
      (codes "GET")
      (parse get_text http_request)
      (process_connection_task outside 2 5 working)
      5
process-IsResponse_example =
    process-IsResponse outside 2 5 working busy get_text (codes "GET") 19 refl refl refl
      get-IsRequest (omega arith) refl

-- A sweep closes a connection whose task still waits, and its descriptor is given out again: the new
-- connection gets a task while the old one is in the queue.
abbrev reused : HttpServer
reused =
    step outside 33
      (step outside 32 (step outside 31 handed_over sweeps) (accepts 5 (codes "10.0.0.2") true))
      (is_readable 5)

two_workers : reused.tasks ≡ reads 5 ∷ reads 5 ∷ []
unfolding step accept_one epoll_add dispatch begin_processing connection close_idle_connections
    close_all close_connection pop_expired pop_loop add_or_update remove push
    mini_server.TimerHeap.put erase next_version is_current mini_server.TimerHeap.find
two_workers = refl

abbrev pub reading : Bytes → ReadRun
reading bytes = record { chunks = bytes ∷ []; last = no_more_yet }

abbrev answered_twice : HttpServer
answered_twice =
    step outside 35 (step outside 34 reused (works (reading get_text) four_bytes))
      (works (reading (codes "bad\r\n\r\n")) four_bytes)

abbrev to_send : Option Connection → Bytes
to_send none = []
to_send (some c) = remaining c

-- Both tasks run: the answer to the first request is gone before a byte of it is sent.
lost_answer : to_send (answered_twice.connections 5) ≡ bad_request
unfolding step accept_one epoll_add epoll_mod dispatch begin_processing finish_processing connection
    close_idle_connections close_all close_connection pop_expired pop_loop add_or_update remove push
    mini_server.TimerHeap.put erase next_version is_current mini_server.TimerHeap.find handle_read
    append_chunks append_read_data process_connection_task respond parse parse_loop parse_line
    extract_one_request extract_at total_len parse_content_length find starts_with remaining
    append_write_data beq match_request_line match_group match_version match_end answer prepare
    handles mini_server.HttpRequest.skip_blank mini_server.Bytes.drop_while
    mini_server.Bytes.take_while mini_server.HttpServer.write_prepared
    mini_server.HttpResponse.Page.prepare_opened mini_server.HttpResponse.open_file
lost_answer = refl
