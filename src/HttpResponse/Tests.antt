-- ===== src/HttpResponse/Tests.antt =====
-- Runs of the response builder, and its theorems at concrete inputs.
use mini_server.Prelude.{◌≡◌, refl, Bool, true, false, some, arith, if◌then◌else◌, ◌∷◌, ◌++◌}
use mini_server.Bytes.{Bytes, codes, find, starts_with, beq, take_while, rfind_char, to_lower}
use mini_server.Bytes.Decimal.{to_decimal}
use mini_server.HttpResponse.{
  MappedFile, FileAnswer, not_opened, regular, open_file, get_mime_type, mime_of_extension,
  get_status_line, build_text, common_headers, status_text,
}
use mini_server.HttpResponse.Page.{
  StreamAnswer, not_open, read, build, prepare, prepare_opened, read_file_content,
}
use mini_server.HttpResponse.Serving.{IsServed, prepare-IsServed}
use mini_server.HttpResponse.Agreement.{Agrees, sent, build-prepare}

-- One file, "w/a.txt".
abbrev is_file : Bytes → Bool
is_file p = beq p (codes "w/a.txt")

abbrev files : Bytes → FileAnswer
files p = if is_file p then regular (codes "hi") true else not_opened

abbrev stream : Bytes → StreamAnswer
stream p = if is_file p then read (codes "hi") true else not_open

abbrev hi_file : MappedFile
hi_file = record { bytes = some (codes "hi"); size = 2 }

served_file : (prepare files (codes "/a.txt") true (codes "w")).file ≡ some hi_file
unfolding prepare prepare_opened find starts_with beq open_file take_while
served_file = refl

prepare-IsServed_example :
    IsServed files
      (codes "/a.txt")
      true
      (codes "w")
      (prepare files (codes "/a.txt") true (codes "w"))
      hi_file
prepare-IsServed_example =
    prepare-IsServed files (codes "/a.txt") true (codes "w") hi_file served_file

-- A NUL ends the name of the file: the text file is served, as a page.
cut_at_nul :
    (prepare files (codes "/a.txt" ++ 0 ∷ codes ".html") true (codes "w")).file ≡ some hi_file
unfolding prepare prepare_opened find starts_with beq open_file take_while
cut_at_nul = refl

files-Agrees : Agrees stream files
unfolding read_file_content open_file
files-Agrees = record { same = λ p. ground arith }

build-prepare_example :
    build stream (codes "/a.txt") false (codes "w")
    ≡ sent (codes "/a.txt") false (codes "w") (prepare files (codes "/a.txt") false (codes "w"))
build-prepare_example = build-prepare (codes "/a.txt") false (codes "w") stream files files-Agrees

png_type : get_mime_type (codes "w/A.PNG") ≡ codes "image/png"
unfolding get_mime_type mime_of_extension rfind_char to_lower
png_type = refl

not_allowed :
    build_text 405 (codes "no") true (codes "text/plain")
    ≡ codes
        "HTTP/1.1 405 Method Not Allowed\r\nServer: MiniServer/1.0\r\nContent-Type: text/plain\r\nContent-Length: 2\r\nConnection: keep-alive\r\n\r\nno"
unfolding build_text get_status_line status_text common_headers to_decimal
not_allowed = refl
