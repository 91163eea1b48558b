-- ===== src/HttpResponse/Mime.antt =====
-- `HttpResponse::getMimeType`: the type by the extension behind the last dot.
use mathlib.Core.List.{append_assoc}
use mini_server.Prelude.{
  ℕ, ◌≡◌, refl, sym, ap, ◌∙◌, ◌≢◌, none, some, [], ◌∷◌, ◌++◌, arith, ==-refl, All,
  drop-append_right, length, ne→==,
}
use mini_server.Bytes.{Bytes, codes, rfind_char, to_lower}
use mini_server.HttpResponse.{octet_stream, mime_of_extension, get_mime_type}

rfind_char-none : (x : ℕ) (s : Bytes) → All (λ c. c ≢ x) s → rfind_char x s ≡ none
unfolding rfind_char
rfind_char-none x [] h = refl
rfind_char-none x (c ∷ s) h = rw (rfind_char-none x s h.1, rfind_char, ne→== c x h.0)

rfind_char-append :
    (x : ℕ) (s t : Bytes) → All (λ c. c ≢ x) t → rfind_char x (s ++ x ∷ t) ≡ some (length s)
unfolding rfind_char
rfind_char-append x [] t h = rw (rfind_char-none x t h, rfind_char, ==-refl x)
rfind_char-append x (c ∷ s) t h = rw (rfind_char-append x s t h, rfind_char)

-- A path with an extension has the type of the extension in lower case; a path with no dot is
-- "application/octet-stream".
pub get_mime_type_lem :
    (s ext : Bytes)
    → All (λ c. c ≢ b'.') ext
    → (get_mime_type (s ++ b'.' ∷ ext) ≡ mime_of_extension (to_lower ext))
      × (get_mime_type ext ≡ octet_stream)
unfolding get_mime_type
get_mime_type_lem s ext h = (
  rw (rfind_char-append b'.' s ext h, get_mime_type, drop-append_right s b'.' ext),
  rw (rfind_char-none b'.' ext h, get_mime_type),
)

-- The index page's file.
pub get_mime_type-index :
    (root : Bytes) → get_mime_type (root ++ codes "/index.html") ≡ codes "text/html; charset=utf-8"
unfolding mime_of_extension to_lower
get_mime_type-index root =
    ap get_mime_type (sym (append_assoc root (codes "/index") (codes ".html")))
    ∙ (get_mime_type_lem (root ++ codes "/index") (codes "html") (omega arith)).0
