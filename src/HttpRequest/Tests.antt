-- ===== src/HttpRequest/Tests.antt =====
-- Runs of the parser, and its theorems at concrete inputs.
use mini_server.Prelude.{◌≡◌, refl, ◌↔◌, true, false, some, [], ◌∷◌, arith}
use mini_server.Bytes.{
  Bytes, codes, beq, find, starts_with, take_while, drop_while, drop_while_end, to_lower,
}
use mini_server.Bytes.Dict.{lookup, insert}
use mini_server.HttpRequest.{
  HttpRequest, post, body, RequestLineMatch, http_request, method_of, url_decode,
  match_request_line, match_group, match_version, match_end, skip_blank, parse, get_header,
}
use mini_server.HttpRequest.UrlDecode.{
  Encodes, url_decode-Encodes, percent_encode, url_decode-percent_encode,
}
use mini_server.HttpRequest.RequestLine.{Matches, match_request_line_iff}
use mini_server.HttpRequest.Parse.RoundTrip.{
  HeaderLine, IsHeaderLine, IsPrintable, print, store_headers, started, finished, parse-print,
}

abbrev submit_text : Bytes
submit_text =
    codes "POST /submit%20form HTTP/1.1\r\nHost: localhost\r\nConnection: close\r\n\r\nhello=world"

abbrev submit : HttpRequest
submit = record {
  state = body;
  method = post;
  path = codes "/submit form";
  version = codes "HTTP/1.1";
  body = codes "hello=world";
  keep_alive = false;
  headers = (codes "host", codes "localhost") ∷ (codes "connection", codes "close") ∷ [];
}

parse-submit : parse submit_text http_request ≡ (true, submit)
unfolding parse find starts_with match_group match_version match_end skip_blank take_while
    drop_while drop_while_end insert to_lower
parse-submit = refl

host_of_submit : get_header (codes "HOST") submit ≡ codes "localhost"
unfolding get_header lookup beq to_lower
host_of_submit = refl

-- What `strtol` makes of escapes that are no pair of digits.
odd_escapes : url_decode (codes "%zz%-1%+5% 7%4x%4") ≡ 0 ∷ 255 ∷ 5 ∷ 7 ∷ 4 ∷ codes "%4"
unfolding url_decode
odd_escapes = refl

url_decode-Encodes_example : url_decode (codes "a+b") ≡ codes "a b"
url_decode-Encodes_example = url_decode-Encodes (codes "a+b") (codes "a b") (
    Encodes.plain (λ e. ground arith) (λ e. ground arith)
      (Encodes.plus refl refl (Encodes.plain (λ e. ground arith) (λ e. ground arith) Encodes.nil)))

percent_encoded_back : url_decode (percent_encode (codes "/a b")) ≡ codes "/a b"
percent_encoded_back = url_decode-percent_encode (codes "/a b") (omega arith)

abbrev get_match : RequestLineMatch
get_match = record { method_text = codes "GET"; uri = codes "/x"; version_text = codes "1.1" }

match_request_line_iff_example :
    (match_request_line (codes "GET /x HTTP/1.1") ≡ some get_match)
    ↔ Matches (codes "GET /x HTTP/1.1") get_match
match_request_line_iff_example = match_request_line_iff (codes "GET /x HTTP/1.1") get_match

get_match-IsPrintable : IsPrintable get_match
unfolding method_of
get_match-IsPrintable = record {
  method_is = record { passes = (refl, (refl, (refl, tt))); not_empty = refl };
  uri_is = record { passes = (refl, (refl, tt)); not_empty = refl };
  version_is = record { passes = (refl, (refl, (refl, tt))); not_empty = refl };
  method_known = refl;
  on_line = omega arith;
}

abbrev host_line : HeaderLine
host_line = record { key = codes "Host"; value = codes " x" }

host_line-IsHeaderLine : IsHeaderLine host_line
host_line-IsHeaderLine = record {
  key_is = omega arith;
  key_line = omega arith;
  value_line = omega arith;
}

parse-print_example : parse (print get_match (host_line ∷ []) []) http_request ≡ (
  true,
  finished (method_of (codes "GET")) [] (store_headers (host_line ∷ []) (started get_match)),
)
parse-print_example =
    parse-print get_match (host_line ∷ []) [] get_match-IsPrintable (host_line-IsHeaderLine, tt)
