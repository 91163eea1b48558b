-- ===== src/HttpRequest.antt =====
-- http_request.h and http_request.cpp: the parser of one request's text.
-- The unordered map of headers is an association list. What the parser prints on the console is
-- left out.
pub mod UrlDecode
pub mod RequestLine
pub mod Trim
pub mod Parse
mod Tests
use mini_server.Prelude.{
  ℕ, zero, suc, ◌+◌, ◌-◌, ◌*◌, ◌%◌, Bool, true, false, not, ◌&&◌, ◌||◌, Option, none, some, List,
  [], ◌∷◌, ◌++◌, drop, if◌then◌else◌, leb, length, take, ◌==◌,
}
use mini_server.Bytes.{
  Bytes, codes, crlf, beq, find, starts_with, take_while, drop_while, drop_while_end, is_space,
  is_upper, is_digit, to_lower,
}
use mini_server.Bytes.Dict.{lookup, insert}

pub data ParseState : Type 0 where
  request_line headers body finish : ParseState

pub data HttpMethod : Type 0 where
  get post put delete bad_method : HttpMethod

pub record HttpRequest : Type 0 where
  pub state : ParseState
  pub method : HttpMethod
  pub path : Bytes
  pub version : Bytes
  pub body : Bytes
  pub keep_alive : Bool
  pub headers : List (Bytes × Bytes)

-- HttpRequest()
abbrev pub http_request : HttpRequest
http_request = record {
  state = request_line;
  method = bad_method;
  path = [];
  version = [];
  body = [];
  keep_alive = false;
  headers = [];
}

-- A hexadecimal digit's value, as `strtol` reads it.
unfoldable pub hex_digit : ℕ → Option ℕ
hex_digit c =
    if is_digit c
    then some (c - b'0')
    else if leb b'a' c && leb c b'f'
    then some (c - b'a' + 10)
    else if is_upper c && leb c b'F'
    then some (c - b'A' + 10)
    else none

abbrev get_or_zero : Option ℕ → ℕ
get_or_zero none = 0
get_or_zero (some v) = v

-- `strtol` of one digit and of the digit behind it, if it is one.
unfoldable strtol_digits : Option ℕ → Option ℕ → ℕ
strtol_digits none b = 0
strtol_digits (some x) none = x
strtol_digits (some x) (some y) = x * 16 + y

-- `static_cast<char>(strtol(hex, nullptr, 16))` for the two characters of `hex`: white space and a
-- sign are skipped, and reading stops at what is no digit. (After "0x" nothing is left to read, so the
-- prefix gives 0, as the digit rule does.)
unfoldable pub strtol_hex : ℕ → ℕ → ℕ
unfolding hex_digit strtol_digits
strtol_hex a b =
    if is_space a || a == b'+'
    then get_or_zero (hex_digit b)
    else if a == b'-'
    then (256 - get_or_zero (hex_digit b)) % 256
    else strtol_digits (hex_digit a) (hex_digit b)

abbrev pub plus_to_space : ℕ → ℕ
plus_to_space c = if c == b'+' then b' ' else c

-- HttpRequest::urlDecode; `i + 2 < src.size()` is that two more characters follow.
unfoldable pub url_decode : Bytes → Bytes
unfolding strtol_hex
url_decode [] = []
url_decode (c ∷ []) = plus_to_space c ∷ []
url_decode (c ∷ a ∷ []) = plus_to_space c ∷ plus_to_space a ∷ []
url_decode (c ∷ a ∷ b ∷ rest) =
    let escaped = strtol_hex a b ∷ url_decode rest in
    let plain = plus_to_space c ∷ url_decode (a ∷ b ∷ rest) in if c == b'%' then escaped else plain

-- [0-9.]
abbrev pub is_version_byte : ℕ → Bool
is_version_byte c = is_digit c || c == b'.'

abbrev pub not_blank : ℕ → Bool
not_blank c = not (c == b' ')

abbrev pub http_slash : Bytes
http_slash = codes "HTTP/"

pub record RequestLineMatch : Type 0 where
  pub method_text : Bytes
  pub uri : Bytes
  pub version_text : Bytes

-- The end of the line, `\r?$`.
unfoldable pub match_end : Bytes → Bool
match_end [] = true
match_end (c ∷ []) = c == 13
match_end (c ∷ d ∷ ds) = false

-- A captured group `[...]+` matches one byte at least.
abbrev pub non_empty : Bytes → Bool
non_empty [] = false
non_empty (c ∷ cs) = true

-- `HTTP/([0-9.]+)\r?$`
unfoldable pub match_version : Bytes → Option Bytes
match_version s =
    let version = take_while is_version_byte (drop 5 s) in
    if starts_with http_slash s
      && non_empty version
      && match_end (drop_while is_version_byte (drop 5 s))
    then some version
    else none

-- One blank.
unfoldable pub skip_blank : Bytes → Option Bytes
skip_blank [] = none
skip_blank (c ∷ cs) = if c == b' ' then some cs else none

-- A group of the class, at least one byte long, and a blank behind it. No byte of the two classes
-- used is a blank, so the regular expression's choice of the group's end is this one.
unfoldable pub match_group : (ℕ → Bool) → Bytes → Option (Bytes × Bytes)
match_group test s = elim (skip_blank (drop_while test s)) [
  | none ↦ none
  | some rest ↦ if non_empty (take_while test s) then some (take_while test s, rest) else none
]

infixl 5 ◌>>=◌
abbrev ◌>>=◌ {ℓ κ} : {A : Type ℓ} {B : Type κ} → Option A → (A → Option B) → Option B
none >>= f = none
some a >>= f = f a

-- regex_match(line, matches, REQUEST_LINE_REGEX)
unfoldable pub match_request_line : Bytes → Option RequestLineMatch
match_request_line line = do
  (method_text, rest) ← match_group is_upper line
  (uri, rest') ← match_group not_blank rest
  version_text ← match_version rest'
  some (record { method_text = method_text; uri = uri; version_text = version_text })

unfoldable pub method_of : Bytes → HttpMethod
unfolding beq
method_of text =
    if beq text (codes "GET")
    then get
    else if beq text (codes "POST")
    then post
    else if beq text (codes "PUT")
    then put
    else if beq text (codes "DELETE")
    then delete
    else bad_method

abbrev pub is_bad : HttpMethod → Bool
is_bad bad_method = true
is_bad _ = false

-- What a matched line assigns. A refused method is assigned too, and nothing after it.
unfoldable pub accept_request_line : RequestLineMatch → HttpRequest → Bool × HttpRequest
unfolding method_of url_decode beq
accept_request_line m r =
    let method = method_of m.method_text in
    let version = http_slash ++ m.version_text in
    if is_bad method then (false, record r { method = bad_method }) else (
      true,
      record r {
        method = method;
        path = url_decode m.uri;
        version = version;
        keep_alive = beq version (codes "HTTP/1.1");
      },
    )

unfoldable pub parse_request_line : Bytes → HttpRequest → Bool × HttpRequest
unfolding accept_request_line match_request_line
parse_request_line line r = elim (match_request_line line) [
  | none ↦ (false, r)
  | some m ↦ accept_request_line m r
]

unfoldable pub trim : Bytes → Bytes
trim value = drop_while_end is_space (drop_while is_space value)

abbrev pub normalize_header_key : Bytes → Bytes
normalize_header_key = to_lower

-- The `Connection` header; another value leaves the flag as the version set it.
unfoldable pub connection_flag : Bytes → Bytes → Bool → Bool
unfolding beq
connection_flag key value keep_alive =
    if beq key (codes "connection")
    then (if beq (normalize_header_key value) (codes "close")
        then false
        else if beq (normalize_header_key value) (codes "keep-alive")
        then true
        else keep_alive)
    else keep_alive

abbrev pub set_header : Bytes → Bytes → HttpRequest → HttpRequest
set_header key value r = record r {
  headers = insert key value r.headers;
  keep_alive = connection_flag key value r.keep_alive;
}

unfoldable pub parse_header : Bytes → HttpRequest → Bool × HttpRequest
unfolding connection_flag trim
parse_header line r = elim (find (b':' ∷ []) line) [
  | none ↦ (false, r)
  | some colon ↦ (
    true,
    set_header (normalize_header_key (trim (take colon line))) (trim (drop (colon + 1) line)) r,
  )
]

-- HttpRequest::parseBody: an empty rest leaves the body as it was.
unfoldable pub parse_body : Bytes → HttpRequest → HttpRequest
parse_body [] r = r
parse_body (c ∷ cs) r = record r { body = c ∷ cs }

unfoldable pub get_header : Bytes → HttpRequest → Bytes
get_header key r = elim (lookup (normalize_header_key key) r.headers) [
  | none ↦ []
  | some value ↦ value
]

unfoldable get_method_name : HttpMethod → Bytes
get_method_name get = codes "GET"
get_method_name post = codes "POST"
get_method_name put = codes "PUT"
get_method_name delete = codes "DELETE"
get_method_name bad_method = codes "UNKNOWN"

-- What one line does to the loop of `parse`: leave it with a result, or go on.
pub data LineResult : Type 0 where
  stop : Bool → HttpRequest → LineResult
  continue : HttpRequest → LineResult

abbrev pub on_request_line : Bool × HttpRequest → LineResult
on_request_line (true, r) = continue (record r { state = headers })
on_request_line (false, r) = stop false r

abbrev pub on_header : Bool × HttpRequest → LineResult
on_header (true, r) = continue r
on_header (false, r) = stop false r

-- The empty line: a GET is complete, any other method takes the rest of the data as its body.
unfoldable pub end_headers : HttpMethod → Bytes → HttpRequest → LineResult
unfolding parse_body
end_headers get rest r = stop true (record r { state = finish })
end_headers _ rest r = stop true (parse_body rest (record r { state = body }))

-- The `switch` on the state; `rest` is the data behind the line's "\r\n".
unfoldable pub parse_line : ParseState → Bytes → Bytes → HttpRequest → LineResult
unfolding parse_request_line parse_header end_headers
parse_line request_line line rest r = on_request_line (parse_request_line line r)
parse_line headers [] rest r = end_headers r.method rest r
parse_line headers (c ∷ cs) rest r = on_header (parse_header (c ∷ cs) r)
parse_line body line rest r = continue r
parse_line finish line rest r = stop true r

abbrev pub is_finish : ParseState → Bool
is_finish finish = true
is_finish _ = false

-- The loop. `rest` is the data from `pos`, which is `line_start` too at the head of the loop; the
-- fuel bounds the number of lines.
unfoldable pub parse_loop : ℕ → Bytes → HttpRequest → Bool × HttpRequest
unfolding parse_line
parse_loop zero rest r = (is_finish r.state, r)
parse_loop (suc fuel) rest r = elim (find crlf rest) [
  | none ↦ (is_finish r.state, r)
  | some line_end ↦ elim (parse_line r.state (take line_end rest) (drop (line_end + 2) rest) r) [
    | stop done r' ↦ (done, r')
    | continue r' ↦ parse_loop fuel (drop (line_end + 2) rest) r'
  ]
]

-- HttpRequest::parse; each line takes two bytes at least.
unfoldable pub parse : Bytes → HttpRequest → Bool × HttpRequest
unfolding parse_loop
parse [] r = (false, r)
parse (c ∷ cs) r = parse_loop (length (c ∷ cs)) (c ∷ cs) r
