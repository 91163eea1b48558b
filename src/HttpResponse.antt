-- ===== src/HttpResponse.antt =====
-- http_response.h and http_response.cpp: status lines, MIME types, mapped files and response texts.
-- What the operating system answers about a file is an argument. An object's fields are written on
-- every path of `build` before they are read, so `build` is a function of its arguments.
pub mod Page
pub mod Status
pub mod Mime
pub mod Serving
pub mod Agreement
mod Tests
use mini_server.Prelude.{
  ℕ, ◌+◌, Bool, true, false, Option, none, some, List, [], ◌∷◌, ◌++◌, drop, if◌then◌else◌, length,
  ltb, ◌==◌,
}
use mini_server.Bytes.{Bytes, codes, crlf, beq, find, rfind_char, substr, to_lower}
use mini_server.Bytes.Decimal.{to_decimal}
use mini_server.Bytes.Dict.{lookup}
use mini_server.Bytes.Integer.{ℤ, pos, atoi}

-- `data_` is null or the mapping's bytes.
pub record MappedFile : Type 0 where
  pub bytes : Option Bytes
  pub size : ℕ

-- MappedFile()
abbrev pub no_mapping : MappedFile
no_mapping = record { bytes = none; size = 0 }

-- What `open`, `fstat` and `mmap` answer for a path: no descriptor; no status, or no regular file; a
-- regular file with its content, which `mmap` maps or does not.
pub data FileAnswer : Type 0 where
  not_opened : FileAnswer
  not_regular : FileAnswer
  regular : Bytes → Bool → FileAnswer

-- MappedFile::open; an empty file is not mapped.
unfoldable map_regular : Bytes → Bool → MappedFile → Bool × MappedFile
map_regular [] map_ok f = (true, record f { size = 0 })
map_regular (c ∷ cs) true f = (true, record { bytes = some (c ∷ cs); size = length (c ∷ cs) })
map_regular (c ∷ cs) false f = (false, record { bytes = none; size = 0 })

unfoldable pub open_file : FileAnswer → MappedFile → Bool × MappedFile
unfolding map_regular
open_file not_opened f = (false, f)
open_file not_regular f = (false, f)
open_file (regular content map_ok) f = map_regular content map_ok f

-- MappedFile::valid
abbrev valid : MappedFile → Bool
valid f = elim f.bytes [ none ↦ f.size == 0 | some b ↦ true ]

-- The bytes from `data()` up to `size()`.
abbrev pub contents : MappedFile → Bytes
contents f = elim f.bytes [ none ↦ [] | some b ↦ b ]

abbrev pub octet_stream : Bytes
octet_stream = codes "application/octet-stream"

abbrev mime_map : List (Bytes × Bytes)
mime_map =
    (codes "html", codes "text/html; charset=utf-8")
    ∷ (codes "htm", codes "text/html; charset=utf-8")
    ∷ (codes "css", codes "text/css; charset=utf-8")
    ∷ (codes "js", codes "application/javascript; charset=utf-8")
    ∷ (codes "json", codes "application/json; charset=utf-8")
    ∷ (codes "xml", codes "application/xml; charset=utf-8")
    ∷ (codes "txt", codes "text/plain; charset=utf-8")
    ∷ (codes "md", codes "text/markdown; charset=utf-8")
    ∷ (codes "csv", codes "text/csv; charset=utf-8")
    ∷ (codes "png", codes "image/png")
    ∷ (codes "jpg", codes "image/jpeg")
    ∷ (codes "jpeg", codes "image/jpeg")
    ∷ (codes "gif", codes "image/gif")
    ∷ (codes "svg", codes "image/svg+xml")
    ∷ (codes "ico", codes "image/x-icon")
    ∷ (codes "webp", codes "image/webp")
    ∷ (codes "bmp", codes "image/bmp")
    ∷ (codes "mp3", codes "audio/mpeg")
    ∷ (codes "mp4", codes "video/mp4")
    ∷ (codes "webm", codes "video/webm")
    ∷ (codes "ogg", codes "audio/ogg")
    ∷ (codes "wav", codes "audio/wav")
    ∷ (codes "woff", codes "font/woff")
    ∷ (codes "woff2", codes "font/woff2")
    ∷ (codes "ttf", codes "font/ttf")
    ∷ (codes "eot", codes "application/vnd.ms-fontobject")
    ∷ (codes "zip", codes "application/zip")
    ∷ (codes "gz", codes "application/gzip")
    ∷ (codes "pdf", codes "application/pdf")
    ∷ []

-- The type of a lower-case extension.
unfoldable pub mime_of_extension : Bytes → Bytes
unfolding lookup beq
mime_of_extension ext = elim (lookup ext mime_map) [ none ↦ octet_stream | some t ↦ t ]

unfoldable pub get_mime_type : Bytes → Bytes
get_mime_type path = elim (rfind_char b'.' path) [
  | none ↦ octet_stream
  | some dot ↦ mime_of_extension (to_lower (drop (dot + 1) path))
]

-- STATUS_MAP, and the text of a code outside it.
unfoldable pub status_text : ℕ → Bytes
status_text code =
    if code == 200
    then codes "OK"
    else if code == 201
    then codes "Created"
    else if code == 301
    then codes "Moved Permanently"
    else if code == 304
    then codes "Not Modified"
    else if code == 400
    then codes "Bad Request"
    else if code == 401
    then codes "Unauthorized"
    else if code == 403
    then codes "Forbidden"
    else if code == 404
    then codes "Not Found"
    else if code == 405
    then codes "Method Not Allowed"
    else if code == 409
    then codes "Conflict"
    else if code == 413
    then codes "Payload Too Large"
    else if code == 500
    then codes "Internal Server Error"
    else if code == 502
    then codes "Bad Gateway"
    else if code == 503
    then codes "Service Unavailable"
    else codes "Unknown"

unfoldable pub get_status_line : ℕ → Bytes
get_status_line code =
    codes "HTTP/1.1 " ++ (to_decimal code ++ (codes " " ++ (status_text code ++ crlf)))

abbrev connection_value : Bool → Bytes
connection_value true = codes "keep-alive"
connection_value false = codes "close"

-- The four header lines that every response has behind its status line.
unfoldable pub common_headers : Bytes → ℕ → Bool → Bytes
common_headers content_type content_length keep_alive =
    codes "Server: MiniServer/1.0"
    ++ (crlf
        ++ (codes "Content-Type: "
            ++ (content_type
                ++ (crlf
                    ++ (codes "Content-Length: "
                        ++ (to_decimal content_length
                            ++ (crlf
                                ++ (codes "Connection: "
                                    ++ (connection_value keep_alive ++ crlf)))))))))

abbrev pub accept_ranges : Bytes
accept_ranges = codes "Accept-Ranges: bytes" ++ crlf

unfoldable pub build_header : ℕ → Bytes → ℕ → Bool → Bytes
build_header status_code content_type content_length keep_alive =
    get_status_line status_code
    ++ (common_headers content_type content_length keep_alive ++ (accept_ranges ++ crlf))

unfoldable pub build_text : ℕ → Bytes → Bool → Bytes → Bytes
build_text status_code body keep_alive content_type =
    get_status_line status_code
    ++ (common_headers content_type (length body) keep_alive ++ (crlf ++ body))

-- HttpResponse::statusCodeFromResponse
unfoldable pub status_code_at : Bytes → ℕ → ℤ
status_code_at response first_space =
    if ltb (length response) (first_space + 4)
    then pos 0
    else atoi (substr response (first_space + 1) 3)

unfoldable pub status_code_from_response : Bytes → ℤ
unfolding status_code_at
status_code_from_response response = elim (find (b' ' ∷ []) response) [
  | none ↦ pos 0
  | some i ↦ status_code_at response i
]
