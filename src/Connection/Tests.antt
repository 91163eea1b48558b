-- ===== src/Connection/Tests.antt =====
-- Runs of the connection's operations, and its theorems at concrete inputs.
use mini_server.Connection.Sending.{remaining, IsSending, consume_write_data-remaining}
use mini_server.Connection.ContentLength.{
  parse_content_length-to_decimal, parse_content_length-lt, parse_content_length-to_lower,
}
use mini_server.Prelude.{
  ℕ, ◌+◌, ◌<◌, ◌≡◌, refl, sym, ap, ◌∙◌, inl, false, none, some, [], ◌∷◌, ◌++◌, arith, drop, some_eq,
  take,
}
use mini_server.Bytes.{
  Bytes, codes, find, starts_with, take_while, drop_while, decimal_from, to_lower,
}
use mini_server.Bytes.Find.{find-some}
use mini_server.Connection.{
  Connection, extract_one_request, parse_content_length, header_end_mark, extract_at, total_len,
  size_mod, append_read_data, content_length_key, consume_write_data,
}
use mini_server.Connection.Framing.{
  IsRequest, after_read, FitsWord, extract_one_request-IsRequest, extract_one_request_complete,
  extract_one_request_wraps, extract_one_request-append_read_data,
}

abbrev post_head : Bytes
post_head = codes "POST / HTTP/1.1\r\nContent-Length: 2\r\n\r\n"

abbrev post_text : Bytes
post_text = post_head ++ codes "ab"

abbrev fresh : Connection
fresh = record {
  fd = 7;
  peer_ip = codes "10.0.0.1";
  read_buf = [];
  write_buf = [];
  mapped_file = none;
  write_offset = 0;
  file_offset = 0;
  write_ready = false;
  close_after_write = false;
  processing = false;
  closed = false;
  last_active = 0;
}

-- Two requests in one buffer.
abbrev pipelined : Connection
pipelined = record fresh { read_buf = post_text ++ post_text }

post_mark : find header_end_mark post_text ≡ some 34
unfolding find starts_with
post_mark = refl

post_length : parse_content_length post_head ≡ 2
unfolding parse_content_length find starts_with take_while drop_while decimal_from
post_length = refl

post-IsRequest : IsRequest post_text 38
post-IsRequest = record {
  mark = 34;
  head_ends = find-some header_end_mark post_text 34 post_mark;
  head_len_is = refl;
  body_len_is = ap (λ n. 38 + n) (sym post_length);
}

extract_first : extract_one_request pipelined ≡ (after_read pipelined post_text, some post_text)
unfolding extract_one_request extract_at total_len parse_content_length find starts_with take_while
    drop_while decimal_from
extract_first = refl

extract_one_request_complete_example :
    extract_one_request pipelined ≡ (after_read pipelined post_text, some post_text)
extract_one_request_complete_example =
    extract_one_request_complete pipelined post_text post_text 38 post-IsRequest (omega arith) refl

two_posts_mark : find header_end_mark pipelined.read_buf ≡ some 34
unfolding find starts_with
two_posts_mark = refl

pipelined-FitsWord : FitsWord pipelined.read_buf
pipelined-FitsWord e h =
    let e_is : e ≡ 34 = some_eq (sym h ∙ two_posts_mark) in rw (e_is, post_length) (omega arith)

extract_one_request-IsRequest_example :
    ((head_len : ℕ) × IsRequest post_text head_len)
    × (after_read pipelined post_text ≡ after_read pipelined post_text)
    × (post_text ++ post_text ≡ pipelined.read_buf)
extract_one_request-IsRequest_example =
    extract_one_request-IsRequest pipelined (after_read pipelined post_text) post_text
      pipelined-FitsWord extract_first

extract_one_request-append_read_data_example :
    extract_one_request (append_read_data 5 (codes "GET") pipelined)
    ≡ (append_read_data 5 (codes "GET") (after_read pipelined post_text), some post_text)
extract_one_request-append_read_data_example =
    extract_one_request-append_read_data pipelined (after_read pipelined post_text) post_text
      (codes "GET") 5 extract_first

-- The body is one byte short.
abbrev partial : Connection
partial = record fresh { read_buf = post_head ++ codes "a" }

partial_waits : extract_one_request partial ≡ (partial, none)
unfolding extract_one_request extract_at total_len parse_content_length find starts_with take_while
    drop_while decimal_from
partial_waits = refl

-- A declared length of 2^64 - 1.
abbrev wrapping : Connection
wrapping = record fresh { read_buf = codes "X\r\nContent-Length: 18446744073709551615\r\n\r\n" }

wrapping_mark : find header_end_mark wrapping.read_buf ≡ some 39
unfolding find starts_with
wrapping_mark = refl

wrapping_length : parse_content_length (take 43 wrapping.read_buf) ≡ 18446744073709551615
unfolding parse_content_length find starts_with take_while drop_while decimal_from
wrapping_length = refl

extract_one_request_wraps_example :
    (n : ℕ) × (n < 43)
    × (extract_one_request wrapping
        ≡ (after_read wrapping (drop n wrapping.read_buf), some (take n wrapping.read_buf)))
extract_one_request_wraps_example =
    extract_one_request_wraps wrapping 39 wrapping_mark (omega (arith, wrapping_length))
      (omega arith)

key_first : find content_length_key (to_lower post_head) ≡ some 17
unfolding find starts_with to_lower
key_first = refl

parse_content_length-to_decimal_example : parse_content_length post_head ≡ 2
unfolding to_lower mini_server.Bytes.Decimal.to_decimal
parse_content_length-to_decimal_example =
    parse_content_length-to_decimal 2 (32 ∷ []) (codes "\r\n\r\n") (omega arith) (refl, tt) refl
      post_head 17 (find-some content_length_key (to_lower post_head) 17 key_first) refl

parse_content_length-to_lower_example :
    parse_content_length (to_lower post_head) ≡ parse_content_length post_head
parse_content_length-to_lower_example = parse_content_length-to_lower post_head

parse_content_length-lt_example : parse_content_length post_head < size_mod
parse_content_length-lt_example = parse_content_length-lt post_head

-- Three bytes of header and two of file, of which one byte is sent.
abbrev sending : Connection
sending = record fresh {
  write_buf = 1 ∷ 2 ∷ 3 ∷ [];
  mapped_file = some (4 ∷ 5 ∷ []);
  write_offset = 1;
}

sending-IsSending : IsSending sending
sending-IsSending = record {
  header_fits = omega arith;
  file_fits = omega arith;
  in_order = inl refl;
}

consume_write_data-remaining_example :
    (remaining (consume_write_data 3 sending) ≡ drop 3 (remaining sending))
    × IsSending (consume_write_data 3 sending)
consume_write_data-remaining_example = consume_write_data-remaining 3 sending sending-IsSending
