-- ===== src/HttpResponse/Page.antt =====
-- `HttpResponse::build` and `HttpResponse::prepare`: which page or file answers a path.
use mini_server.Prelude.{
  ℕ, Bool, true, false, ◌||◌, Option, none, some, [], ◌++◌, if◌then◌else◌, length, ◌==◌, not,
}
use mini_server.Bytes.{Bytes, codes, crlf, beq, find, take_while}
use mini_server.HttpResponse.{
  MappedFile, no_mapping, FileAnswer, open_file, contents, get_mime_type, common_headers,
  get_status_line, accept_ranges, build_header,
}

abbrev pub text_html : Bytes
text_html = codes "text/html; charset=utf-8"

abbrev pub forbidden_page : Bytes
forbidden_page = codes "<html><body><h1>403 Forbidden</h1><p>Access denied.</p></body></html>"

abbrev pub welcome_page : Bytes
welcome_page =
    codes
      "<html><body><h1>Welcome to MiniServer!</h1><p>Static file server is running.</p><p>Put your files in the <b>webroot/</b> directory.</p></body></html>"

abbrev pub not_found_page : Bytes
not_found_page =
    codes
      "<html><body><h1>404 Not Found</h1><p>The requested URL was not found on this server.</p></body></html>"

abbrev pub dots : Bytes
dots = codes ".."

abbrev pub is_found : Option ℕ → Bool
is_found none = false
is_found (some i) = true

-- `path.find("..") != npos`
abbrev pub climbs : Bytes → Bool
climbs path = is_found (find dots path)

-- `path == "/" || path.empty()`
abbrev pub is_root : Bytes → Bool
is_root path = beq path (codes "/") || beq path []

-- `filepath.c_str()`: the operating system reads a path up to its first NUL.
abbrev pub c_str : Bytes → Bytes
c_str path = take_while (λ c. not (c == 0)) path

-- What `std::ifstream` answers for a path: not open; `tellg` failed; the bytes read, and whether the
-- stream is good or at its end afterwards.
pub data StreamAnswer : Type 0 where
  not_open : StreamAnswer
  no_size : StreamAnswer
  read : Bytes → Bool → StreamAnswer

-- HttpResponse::readFileContent; what it leaves in `content` on failure is overwritten by both callers.
unfoldable pub read_file_content : StreamAnswer → Option Bytes
read_file_content not_open = none
read_file_content no_size = none
read_file_content (read content stream_ok) = if stream_ok then some content else none

-- `statusCode_`, `contentType_` and `body_`.
pub record Page : Type 0 where
  pub status_code : ℕ
  pub content_type : Bytes
  pub body : Bytes

abbrev pub page : ℕ → Bytes → Bytes → Page
page status_code content_type body = record {
  status_code = status_code;
  content_type = content_type;
  body = body;
}

abbrev pub found_or {ℓ} : {A : Type ℓ} → Option Bytes → (Bytes → A) → A → A
found_or none f other = other
found_or (some content) f other = f content

unfoldable pub choose_page : (Bytes → StreamAnswer) → Bytes → Bytes → Page
unfolding read_file_content
choose_page stream path html_root =
    if climbs path
    then page 403 text_html forbidden_page
    else if is_root path
    then found_or (read_file_content (stream (c_str (html_root ++ codes "/index.html"))))
        (λ content. page 200 text_html content) (page 200 text_html welcome_page)
    else found_or (read_file_content (stream (c_str (html_root ++ path))))
        (λ content. page 200 (get_mime_type (html_root ++ path)) content)
        (page 404 text_html not_found_page)

-- The text of a page: `build` from its fourth step on.
unfoldable pub render : Page → Bool → Bytes
render p keep_alive =
    get_status_line p.status_code
    ++ (common_headers p.content_type (length p.body) keep_alive
        ++ (accept_ranges ++ (crlf ++ p.body)))

unfoldable pub build : (Bytes → StreamAnswer) → Bytes → Bool → Bytes → Bytes
build stream path keep_alive html_root = render (choose_page stream path html_root) keep_alive

pub record PreparedResponse : Type 0 where
  pub status_code : ℕ
  pub header : Bytes
  pub body : Bytes
  pub file : Option MappedFile

-- PreparedResponse::bodySize
abbrev size_of : Option MappedFile → Bytes → ℕ
size_of none body = length body
size_of (some f) body = f.size

abbrev body_size : PreparedResponse → ℕ
body_size r = size_of r.file r.body

-- The last step of `prepare`: the header from the fields.
abbrev with_header : ℕ → Bytes → Bytes → Option MappedFile → Bool → PreparedResponse
with_header status_code content_type body file keep_alive = record {
  status_code = status_code;
  header = build_header status_code content_type (size_of file body) keep_alive;
  body = body;
  file = file;
}

-- `filepath`
abbrev pub file_path : Bytes → Bytes → Bytes
file_path path html_root =
    if is_root path then html_root ++ codes "/index.html" else html_root ++ path

-- The branch behind `file->open(filepath)`.
unfoldable pub prepare_opened : Bool × MappedFile → Bytes → Bool → Bytes → PreparedResponse
prepare_opened (true, file) path keep_alive html_root =
    with_header 200 (get_mime_type (file_path path html_root)) [] (some file) keep_alive
prepare_opened (false, file) path keep_alive html_root =
    if is_root path
    then with_header 200 text_html welcome_page none keep_alive
    else with_header 404 text_html not_found_page none keep_alive

unfoldable pub prepare : (Bytes → FileAnswer) → Bytes → Bool → Bytes → PreparedResponse
prepare files path keep_alive html_root =
    if climbs path
    then with_header 403 text_html forbidden_page none keep_alive
    else prepare_opened (open_file (files (c_str (file_path path html_root))) no_mapping) path
        keep_alive html_root

-- The bytes that follow the header on the wire.
abbrev pub payload_of : Option MappedFile → Bytes → Bytes
payload_of none body = body
payload_of (some f) body = contents f

abbrev pub payload : PreparedResponse → Bytes
payload r = payload_of r.file r.body
