-- ===== src/HttpResponse/Serving.antt =====
-- What `prepare` serves, and from where.
use mini_server.Prelude.{
  ℕ, ◌≡◌, refl, sym, ap, ◌∙◌, subst, inl, inr, Bool, true, false, none, some, [], ◌∷◌, Bool-cases,
  Option-cases, drop, length,
}
use mini_server.Bytes.{Bytes, find, starts_with}
use mini_server.Bytes.Find.{find-none}
use mini_server.HttpResponse.{
  MappedFile, no_mapping, FileAnswer, not_opened, not_regular, regular, open_file, contents,
  get_mime_type, build_header,
}
use mini_server.HttpResponse.Page.{
  dots, climbs, is_root, c_str, PreparedResponse, file_path, prepare_opened, prepare, is_found,
}

-- An opened file is the whole content of a regular file.
pub open_file-true :
    (a : FileAnswer) (f : MappedFile)
    → open_file a no_mapping ≡ (true, f)
    → (f.size ≡ length (contents f)) × ((map_ok : Bool) × (a ≡ regular (contents f) map_ok))
unfolding open_file
open_file-true not_opened f h = cc
open_file-true not_regular f h = cc
open_file-true (regular [] ok) f h =
    subst
      (λ g.
        (g.size ≡ length (contents g)) × ((m : Bool) × (regular [] ok ≡ regular (contents g) m)))
      (ap (λ p. p.1) h) (refl, (ok, refl))
open_file-true (regular (c ∷ cs) true) f h =
    subst
      (λ g.
        (g.size ≡ length (contents g))
        × ((m : Bool) × (regular (c ∷ cs) true ≡ regular (contents g) m)))
      (ap (λ p. p.1) h) (refl, (true, refl))
open_file-true (regular (c ∷ cs) false) f h = cc

-- The failing branches have no file.
prepare_opened-file :
    (r : Bool × MappedFile) (path : Bytes) (keep_alive : Bool) (html_root : Bytes) (f : MappedFile)
    → (prepare_opened r path keep_alive html_root).file ≡ some f
    → r ≡ (true, f)
unfolding prepare_opened
prepare_opened-file (true, g) path keep_alive html_root f h = cc
prepare_opened-file (false, g) path keep_alive html_root f h = elim (Bool-cases (is_root path)) [
  | inl e ↦ cc (rw e at h)
  | inr e ↦ cc (rw e at h)
]

-- `find` says where the two dots stand.
climbs-false :
    (path : Bytes) → climbs path ≡ false → (i : ℕ) → starts_with dots (drop i path) ≡ false
climbs-false path h = elim (Option-cases (find dots path)) [
  | inl e ↦ find-none b'.' (b'.' ∷ []) path e
  | inr (i, e) ↦ cc (ap is_found e, h)
]

-- What a served file means: the response `r` to `path` below `html_root`.
pub record IsServed (files : Bytes → FileAnswer) (path : Bytes) (keep_alive : Bool)
    (html_root : Bytes) (r : PreparedResponse) (f : MappedFile) : Type 0 where
  pub no_climb : (i : ℕ) → starts_with dots (drop i path) ≡ false
  pub whole :
      (map_ok : Bool) × (files (c_str (file_path path html_root)) ≡ regular (contents f) map_ok)
  pub status_is : r.status_code ≡ 200
  pub body_is : r.body ≡ []
  pub header_is :
      r.header
      ≡ build_header 200 (get_mime_type (file_path path html_root)) (length (contents f)) keep_alive

module _ (files : Bytes → FileAnswer) (path : Bytes) (keep_alive : Bool) (html_root : Bytes) where
  climbs-prepare : climbs path ≡ true → (prepare files path keep_alive html_root).file ≡ none
  unfolding prepare
  climbs-prepare h = rw h

  pub prepare-opened :
      climbs path ≡ false
      → prepare files path keep_alive html_root
        ≡ prepare_opened
            (open_file (files (c_str (file_path path html_root))) no_mapping)
            path
            keep_alive
            html_root
  unfolding prepare
  prepare-opened h = rw h

  opened-IsServed :
      (f : MappedFile)
      → climbs path ≡ false
      → open_file (files (c_str (file_path path html_root))) no_mapping ≡ (true, f)
      → IsServed files path keep_alive html_root
          (prepare_opened (true, f) path keep_alive html_root)
          f
  unfolding prepare_opened
  opened-IsServed f c o =
      let (size, whole) = open_file-true (files (c_str (file_path path html_root))) f o in
      record {
        no_climb = climbs-false path c;
        whole = whole;
        status_is = refl;
        body_is = refl;
        header_is =
            ap (λ n. build_header 200 (get_mime_type (file_path path html_root)) n keep_alive) size;
      }

  -- If a file is served, the path has ".." nowhere, and with the name that is the root with the path
  -- behind it, or with "/index.html" for the root itself: the file is the whole content of the regular
  -- file that the name, read up to its first NUL, stands for; the header announces its length and the
  -- type of the whole name, with the status 200.
  pub prepare-IsServed :
      (f : MappedFile)
      → (prepare files path keep_alive html_root).file ≡ some f
      → IsServed files path keep_alive html_root (prepare files path keep_alive html_root) f
  prepare-IsServed f h = elim (Bool-cases (climbs path)) [
    | inl c ↦ cc (climbs-prepare c, h)
    | inr c ↦
        let o =
          prepare_opened-file (open_file (files (c_str (file_path path html_root))) no_mapping) path
            keep_alive html_root f
            (ap (λ (r : PreparedResponse). r.file) (sym (prepare-opened c)) ∙ h) in
        subst (λ r. IsServed files path keep_alive html_root r f)
          (ap (λ r. prepare_opened r path keep_alive html_root) (sym o) ∙ sym (prepare-opened c))
          (opened-IsServed f c o)
  ]
