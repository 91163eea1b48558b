-- ===== src/HttpServer/Tests/Traffic.antt =====
-- A request and its response, from the first byte to the last.
use mini_server.Prelude.{ℕ, ◌≡◌, refl, true, [], ◌∷◌}
use mini_server.Bytes.{codes}
use mini_server.Bytes.{find, starts_with, beq, drop_while, take_while}
use mini_server.Connection.{
  connection, append_write_data, consume_write_data, extract_one_request, extract_at, total_len,
  append_read_data, parse_content_length, has_write_data,
}
use mini_server.Epoller.{epoll_add, epoll_mod}
use mini_server.HttpRequest.{
  parse, parse_loop, parse_line, match_request_line, match_group, match_version, match_end,
  skip_blank,
}
use mini_server.HttpResponse.{open_file, build_header, get_status_line, status_text, common_headers}
use mini_server.Bytes.Decimal.{to_decimal}
use mini_server.HttpResponse.Page.{prepare, prepare_opened}
use mini_server.RequestRouter.{handles}
use mini_server.HttpServer.{
  HttpServer, accept_one, dispatch, begin_processing, finish_processing, process_connection_task,
  respond, answer, write_prepared,
}
use mini_server.HttpServer.Handlers.{
  WriteAnswer, returned, handle_read, append_chunks, handle_write, after_writes, written,
  write_loop, write_fuel, is_done,
}
use mini_server.HttpServer.Steps.{
  accepts, is_readable, is_writable, works, step, Reaches, starts, steps,
}
use mini_server.HttpServer.Traffic.{traffic}
use mini_server.HttpServer.Traffic.Carried.{IsCarried}
use mini_server.HttpServer.Traffic.Served.{traffic-IsCarried}
use mini_server.HttpServer.Tests.{outside, start, handed_over, get_text, reading}

-- The kernel takes all.
abbrev all_taken : ℕ → WriteAnswer
all_taken k = returned 4096

abbrev answered : HttpServer
answered = step outside 2 handed_over (works (reading get_text) all_taken)

abbrev served : HttpServer
served = step outside 4 (step outside 3 answered (is_writable 5)) (works (reading []) all_taken)

abbrev served_path : Reaches start served
served_path =
    steps outside 4 (works (reading []) all_taken)
      (steps outside 3 (is_writable 5)
        (steps outside 2 (works (reading get_text) all_taken)
          (steps outside 1 (is_readable 5)
            (steps outside 0 (accepts 5 (codes "10.0.0.1") true) starts (refl, refl)) tt)
          tt)
        tt)
      tt

traffic-IsCarried_example : IsCarried (codes "w") (traffic 5 served_path) (served.connections 5)
traffic-IsCarried_example =
    traffic-IsCarried 30 (codes "w") served served_path (tt, (tt, (tt, (tt, ((refl, refl), tt))))) 5

one_request : (traffic 5 served_path).requests ≡ (outside, get_text) ∷ []
unfolding traffic step accept_one epoll_add epoll_mod dispatch begin_processing finish_processing
    connection handle_read append_chunks append_read_data process_connection_task respond parse
    parse_loop parse_line extract_one_request extract_at total_len parse_content_length find
    starts_with append_write_data beq match_request_line match_group match_version match_end answer
    prepare handles skip_blank drop_while take_while write_prepared prepare_opened open_file
    handle_write after_writes written write_loop write_fuel is_done has_write_data build_header
    get_status_line to_decimal status_text common_headers consume_write_data
one_request = refl
