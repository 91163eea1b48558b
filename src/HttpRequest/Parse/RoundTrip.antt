-- ===== src/HttpRequest/Parse/RoundTrip.antt =====
-- `HttpRequest::parse` of a printed request: request line, headers and body.
use mini_server.Prelude.{
  ℕ, zero, suc, ◌+◌, ◌≤◌, ◌<◌, ◌≡◌, refl, sym, ap, ◌∙◌, ◌≢◌, inl, true, false, some, List, [], ◌∷◌,
  ◌++◌, arith, All, All-append, drop, drop-drop, drop-length_append, length, length-append,
  take-length_append,
}
use mini_server.Bytes.{Bytes, codes, crlf, find, beq, is_upper}
use mini_server.Bytes.Find.{find-append_none}
use mini_server.HttpRequest.{
  HttpRequest, HttpMethod, get, request_line, headers, body, finish, RequestLineMatch, not_blank,
  is_version_byte, http_slash, http_request, is_bad, method_of, url_decode, accept_request_line,
  parse_request_line, parse_header, set_header, normalize_header_key, trim, parse_body, end_headers,
  parse_line, stop, continue, parse_loop, parse, on_header, on_request_line,
}
use mini_server.HttpRequest.RequestLine.{IsGroup, match_request_line_iff}
use mini_server.HttpRequest.Parse.{
  parse_loop-continue, parse_loop-stop, parse_header_lem, parse_loop-fuel,
}

pub record HeaderLine : Type 0 where
  pub key : Bytes
  pub value : Bytes

-- No carriage return.
abbrev IsLine : Bytes → Type 0
IsLine = All (λ c. c ≢ 13)

pub record IsHeaderLine (h : HeaderLine) : Type 0 where
  pub key_is : All (λ c. c ≢ b':') h.key
  pub key_line : IsLine h.key
  pub value_line : IsLine h.value

abbrev header_text : HeaderLine → Bytes
header_text h = h.key ++ b':' ∷ h.value

abbrev request_line_text : RequestLineMatch → Bytes
request_line_text m =
    m.method_text ++ (b' ' ∷ (m.uri ++ (b' ' ∷ (http_slash ++ (m.version_text ++ [])))))

-- The header lines, the empty line and the body.
abbrev print_headers : List HeaderLine → Bytes → Bytes
print_headers [] rest = crlf ++ rest
print_headers (h ∷ hs) rest = header_text h ++ (crlf ++ print_headers hs rest)

abbrev pub print : RequestLineMatch → List HeaderLine → Bytes → Bytes
print m hs rest = request_line_text m ++ (crlf ++ print_headers hs rest)

-- The request with the headers stored in order, a later one over an earlier one of the same name.
abbrev pub store_headers : List HeaderLine → HttpRequest → HttpRequest
store_headers [] r = r
store_headers (h ∷ hs) r =
    store_headers hs (set_header (normalize_header_key (trim h.key)) (trim h.value) r)

-- The request behind its request line.
abbrev pub started : RequestLineMatch → HttpRequest
started m = record http_request {
  state = headers;
  method = method_of m.method_text;
  path = url_decode m.uri;
  version = http_slash ++ m.version_text;
  keep_alive = beq (http_slash ++ m.version_text) (codes "HTTP/1.1");
}

-- The request behind the empty line: a GET is finished, and any other method has the rest as body.
abbrev pub finished : HttpMethod → Bytes → HttpRequest → HttpRequest
finished get rest r = record r { state = finish }
finished _ rest r = parse_body rest (record r { state = body })

pub record IsPrintable (m : RequestLineMatch) : Type 0 where
  pub method_is : IsGroup is_upper m.method_text
  pub uri_is : IsGroup not_blank m.uri
  pub version_is : IsGroup is_version_byte m.version_text
  pub method_known : is_bad (method_of m.method_text) ≡ false
  pub on_line : IsLine (request_line_text m)

end_headers_lem :
    (k : HttpMethod) (rest : Bytes) (r : HttpRequest)
    → end_headers k rest r ≡ stop true (finished k rest r)
unfolding end_headers
end_headers_lem get rest r = refl
end_headers_lem _ rest r = refl

-- Cutting off a line.
module _ (line rest : Bytes) where
  drop_line : drop (length line + 2) (line ++ (crlf ++ rest)) ≡ rest
  drop_line =
      sym (drop-drop (length line) 2 (line ++ (crlf ++ rest)))
      ∙ ap (drop 2) (drop-length_append line (crlf ++ rest))

  find_line : IsLine line → find crlf (line ++ (crlf ++ rest)) ≡ some (length line)
  find_line h = find-append_none 13 (10 ∷ []) line rest h

  step_line :
      (fuel : ℕ) (r r' : HttpRequest)
      → IsLine line
      → parse_line r.state line rest r ≡ continue r'
      → parse_loop (suc fuel) (line ++ (crlf ++ rest)) r ≡ parse_loop fuel rest r'
  step_line fuel r r' h k =
      parse_loop-continue fuel (line ++ (crlf ++ rest)) r (length line) r' (find_line h)
        (rw (take-length_append line (crlf ++ rest), drop_line) k)
      ∙ ap (λ s. parse_loop fuel s r') drop_line

parse_line-cons :
    (c : ℕ) (cs rest : Bytes) (r : HttpRequest)
    → parse_line headers (c ∷ cs) rest r ≡ on_header (parse_header (c ∷ cs) r)
unfolding parse_line
parse_line-cons c cs rest r = refl

parse_line-request_line :
    (line rest : Bytes) (r : HttpRequest)
    → parse_line request_line line rest r ≡ on_request_line (parse_request_line line r)
unfolding parse_line
parse_line-request_line line rest r = refl

parse_line-colon :
    (key value rest : Bytes) (r : HttpRequest)
    → parse_line headers (key ++ b':' ∷ value) rest r
      ≡ on_header (parse_header (key ++ b':' ∷ value) r)
parse_line-colon [] value rest r = parse_line-cons b':' value rest r
parse_line-colon (c ∷ key) value rest r = parse_line-cons c (key ++ b':' ∷ value) rest r

parse_line-empty :
    (rest : Bytes) (r : HttpRequest)
    → parse_line headers [] rest r ≡ stop true (finished r.method rest r)
unfolding parse_line
parse_line-empty rest r = end_headers_lem r.method rest r

parse_line-header :
    (h : HeaderLine) (rest : Bytes) (r : HttpRequest)
    → IsHeaderLine h
    → parse_line headers (header_text h) rest r
      ≡ continue (set_header (normalize_header_key (trim h.key)) (trim h.value) r)
parse_line-header h rest r p =
    parse_line-colon h.key h.value rest r ∙ ap on_header (parse_header_lem h.key h.value r p.key_is)

IsLine-header_text : (h : HeaderLine) → IsHeaderLine h → IsLine (header_text h)
IsLine-header_text h p =
    All-append (λ c. c ≢ 13) h.key (b':' ∷ h.value) p.key_line ((λ e. ground arith), p.value_line)

length-print_headers :
    (h : HeaderLine) (hs : List HeaderLine) (rest : Bytes)
    → length (print_headers hs rest) + 2 ≤ length (print_headers (h ∷ hs) rest)
length-print_headers h hs rest =
    omega (arith, length-append (header_text h) (crlf ++ print_headers hs rest))

parse_loop-print_headers :
    (fuel : ℕ) (hs : List HeaderLine) (rest : Bytes) (r : HttpRequest)
    → All IsHeaderLine hs
    → r.state ≡ headers
    → length (print_headers hs rest) ≤ fuel
    → parse_loop fuel (print_headers hs rest) r
      ≡ (true, finished r.method rest (store_headers hs r))
parse_loop-print_headers zero [] rest r p s h = absurd (omega arith)
parse_loop-print_headers zero (x ∷ hs) rest r p s h =
    absurd (omega (arith, length-print_headers x hs rest))
parse_loop-print_headers (suc fuel) [] rest r p s h =
    parse_loop-stop fuel (crlf ++ rest) r 0 true _ (find_line [] rest tt)
      (ap (λ st. parse_line st [] rest r) s ∙ parse_line-empty rest r)
parse_loop-print_headers (suc fuel) (x ∷ hs) rest r (p, ps) s h =
    step_line (header_text x) (print_headers hs rest) fuel r _ (IsLine-header_text x p) (
      ap (λ st. parse_line st (header_text x) (print_headers hs rest) r) s
      ∙ parse_line-header x (print_headers hs rest) r p)
    ∙ parse_loop-print_headers fuel hs rest _ ps s (omega (arith, length-print_headers x hs rest))

parse_request_line-started :
    (m : RequestLineMatch)
    → IsPrintable m
    → parse_request_line (request_line_text m) http_request
      ≡ (true, record (started m) { state = request_line })
unfolding parse_request_line
parse_request_line-started m p = rw (
  (match_request_line_iff (request_line_text m) m).1 (record {
    method_is = p.method_is;
    uri_is = p.uri_is;
    version_is = p.version_is;
    end = [];
    end_is = inl refl;
    line_is = refl;
  }),
  parse_request_line,
  accept_request_line,
  p.method_known,
)

parse_cons : (s : Bytes) (r : HttpRequest) → 0 < length s → parse s r ≡ parse_loop (length s) s r
unfolding parse
parse_cons [] r h = absurd (omega arith)
parse_cons (c ∷ s) r h = refl

-- The text of a request parses to that request: the decoded path, the version, the method, the headers
-- in order, and for a method other than GET the body, which may be any bytes. The request line has the
-- groups of the expression, a known method and no carriage return; each header line has none either,
-- and no colon in its name.
pub parse-print :
    (m : RequestLineMatch) (hs : List HeaderLine) (rest : Bytes)
    → IsPrintable m
    → All IsHeaderLine hs
    → parse (print m hs rest) http_request
      ≡ (true, finished (method_of m.method_text) rest (store_headers hs (started m)))
parse-print m hs rest p ps =
    parse_cons (print m hs rest) http_request (omega (arith, size))
    ∙ parse_loop-fuel (length (print m hs rest)) (suc (length (print m hs rest))) (print m hs rest)
        http_request (omega arith) (omega arith)
    ∙ step_line (request_line_text m) (print_headers hs rest) (length (print m hs rest))
        http_request (started m) p.on_line
        (parse_line-request_line (request_line_text m) (print_headers hs rest) http_request
          ∙ ap on_request_line (parse_request_line-started m p))
    ∙ parse_loop-print_headers (length (print m hs rest)) hs rest (started m) ps refl
        (omega (arith, size))
  where
    size :
        length (print m hs rest)
        ≡ length (request_line_text m) + (2 + length (print_headers hs rest))
    size = omega (arith, length-append (request_line_text m) (crlf ++ print_headers hs rest))
