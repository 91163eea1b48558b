-- ===== src/HttpResponse/Agreement.antt =====
-- `build`, which reads a file through a stream, beside `prepare`, which maps it.
use mathlib.Core.List.{append_assoc}
use mini_server.Prelude.{
  ℕ, ◌≡◌, refl, sym, ap, ◌∙◌, inl, inr, Bool, true, false, Option, none, some, ◌++◌, Bool-cases,
  if◌then◌else◌, length,
}
use mini_server.Bytes.{Bytes}
use mini_server.HttpResponse.{
  MappedFile, no_mapping, FileAnswer, open_file, contents, get_mime_type, build_header,
}
use mini_server.HttpResponse.Mime.{get_mime_type-index}
use mini_server.HttpResponse.Page.{
  StreamAnswer, read_file_content, text_html, forbidden_page, welcome_page, not_found_page, climbs,
  is_root, c_str, Page, page, found_or, choose_page, render, build, PreparedResponse, file_path,
  prepare_opened, prepare, payload,
}
use mini_server.HttpResponse.Serving.{open_file-true, prepare-opened}

-- The bytes that a mapping gives to the client, if it succeeds.
abbrev pub served : Bool × MappedFile → Option Bytes
served (true, f) = some (contents f)
served (false, f) = none

-- The two ways to read a file have the same outcome.
pub record Agrees (stream : Bytes → StreamAnswer) (files : Bytes → FileAnswer) : Type 0 where
  pub same : (p : Bytes) → read_file_content (stream p) ≡ served (open_file (files p) no_mapping)

-- Header and body.
render_lem :
    (status : ℕ) (content_type body : Bytes) (keep_alive : Bool)
    → render (page status content_type body) keep_alive
      ≡ build_header status content_type (length body) keep_alive ++ body
unfolding render build_header
render_lem status content_type body keep_alive = simp append_assoc

abbrev missing_page : Bytes → Page
missing_page path =
    if is_root path then page 200 text_html welcome_page else page 404 text_html not_found_page

module _ (stream : Bytes → StreamAnswer) (path html_root : Bytes) where
  choose_page-open :
      climbs path ≡ false
      → choose_page stream path html_root
        ≡ found_or
            (read_file_content (stream (c_str (file_path path html_root))))
            (λ content. page 200 (get_mime_type (file_path path html_root)) content)
            (missing_page path)
  unfolding choose_page
  choose_page-open c = elim (Bool-cases (is_root path)) [
    | inl e ↦ rw (c, e, get_mime_type-index html_root)
    | inr e ↦ rw (c, e)
  ]

module _ (path : Bytes) (keep_alive : Bool) (html_root : Bytes) where
  abbrev pub sent : PreparedResponse → Bytes
  sent r = r.header ++ payload r

  opened_same :
      (a : FileAnswer) (r : Bool × MappedFile)
      → open_file a no_mapping ≡ r
      → render
          (found_or
            (served r)
            (λ content. page 200 (get_mime_type (file_path path html_root)) content)
            (missing_page path))
          keep_alive
        ≡ sent (prepare_opened r path keep_alive html_root)
  unfolding prepare_opened
  opened_same a (true, f) o =
      render_lem 200 (get_mime_type (file_path path html_root)) (contents f) keep_alive
      ∙ ap
          (λ n.
            build_header 200 (get_mime_type (file_path path html_root)) n keep_alive ++ contents f)
          (sym (open_file-true a f o).0)
  opened_same a (false, f) o = elim (Bool-cases (is_root path)) [
    | inl e ↦ rw e (render_lem 200 text_html welcome_page keep_alive)
    | inr e ↦ rw e (render_lem 404 text_html not_found_page keep_alive)
  ]

  build-climbs :
      (stream : Bytes → StreamAnswer) (files : Bytes → FileAnswer)
      → climbs path ≡ true
      → build stream path keep_alive html_root ≡ sent (prepare files path keep_alive html_root)
  unfolding build choose_page prepare
  build-climbs stream files c = rw c (render_lem 403 text_html forbidden_page keep_alive)

  build-open :
      (stream : Bytes → StreamAnswer) (files : Bytes → FileAnswer)
      → Agrees stream files
      → climbs path ≡ false
      → build stream path keep_alive html_root ≡ sent (prepare files path keep_alive html_root)
  unfolding build
  build-open stream files h c =
      ap (λ p. render p keep_alive)
        (choose_page-open stream path html_root c
          ∙ ap
              (λ o.
                found_or o (λ content. page 200 (get_mime_type (file_path path html_root)) content)
                  (missing_page path))
              (h.same (c_str (file_path path html_root))))
      ∙ opened_same (files (c_str (file_path path html_root)))
          (open_file (files (c_str (file_path path html_root))) no_mapping) refl
      ∙ ap sent (sym (prepare-opened files path keep_alive html_root c))

  -- Where the stream and the mapping of every file agree, `build` returns the header that `prepare` makes
  -- with the bytes behind it that `prepare` serves, for every path.
  pub build-prepare :
      (stream : Bytes → StreamAnswer) (files : Bytes → FileAnswer)
      → Agrees stream files
      → build stream path keep_alive html_root ≡ sent (prepare files path keep_alive html_root)
  build-prepare stream files h = elim (Bool-cases (climbs path)) [
    | inl c ↦ build-climbs stream files c
    | inr c ↦ build-open stream files h c
  ]
