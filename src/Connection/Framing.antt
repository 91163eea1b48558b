-- ===== src/Connection/Framing.antt =====
-- `Connection::extractOneRequest`: the requests in the read buffer.
use mini_server.Prelude.{
  ℕ, ◌+◌, ◌-◌, ◌%◌, ◌≤◌, ◌<◌, ◌≡◌, refl, sym, ap, ◌∙◌, ◌≢◌, inl, inr, none, some, ◌++◌, arith,
  Option-cases, drop, drop-append_left, drop-length_append, length, length-append, length-take_fits,
  take, take-append-drop, take-append_left, take-length_append, take-take,
}
use mini_server.Bytes.{Bytes, find}
use mini_server.Bytes.Find.{IsFirst, find-some, IsFirst-take, find-append, find-IsFirst}
use mini_server.Connection.ContentLength.{parse_content_length-lt}
use mini_server.Connection.{
  Connection, header_end_mark, parse_content_length, total_len, extract_at, extract_one_request,
  size_mod, append_read_data,
}

-- `raw` is one request: a head of `head_len` bytes that ends with the first empty line, and a body
-- as long as the head declares.
pub record IsRequest (raw : Bytes) (head_len : ℕ) : Type 0 where
  pub mark : ℕ
  pub head_ends : IsFirst header_end_mark raw mark
  pub head_len_is : head_len ≡ mark + 4
  pub body_len_is : length raw ≡ head_len + parse_content_length (take head_len raw)

-- What is left of the buffer.
abbrev pub after_read : Connection → Bytes → Connection
after_read c rest = record c { read_buf = rest }

module _ (c : Connection) where
  extract_found :
      (e : ℕ) → find header_end_mark c.read_buf ≡ some e → extract_one_request c ≡ extract_at c e
  unfolding extract_one_request
  extract_found e h = rw (h, extract_one_request)

  extract_missing : find header_end_mark c.read_buf ≡ none → extract_one_request c ≡ (c, none)
  unfolding extract_one_request
  extract_missing h = rw (h, extract_one_request)

  extract_at-splits :
      (e : ℕ) (c' : Connection) (raw : Bytes)
      → extract_at c e ≡ (c', some raw)
      → let total = total_len c.read_buf (e + 4) in
        (total ≤ length c.read_buf)
        × (c' ≡ after_read c (drop total c.read_buf))
        × (raw ≡ take total c.read_buf)
  unfolding extract_at
  extract_at-splits e c' raw h = ground arith

  extract_at-short :
      (e : ℕ) → length c.read_buf < total_len c.read_buf (e + 4) → extract_at c e ≡ (c, none)
  unfolding extract_at
  extract_at-short e h = ground arith

  extract_at-long :
      (e total : ℕ)
      → total_len c.read_buf (e + 4) ≡ total
      → total ≤ length c.read_buf
      → extract_at c e ≡ (after_read c (drop total c.read_buf), some (take total c.read_buf))
  unfolding extract_at
  extract_at-long e total p h = ground arith

  extract_inv :
      (c' : Connection) (raw : Bytes)
      → extract_one_request c ≡ (c', some raw)
      → (e : ℕ) × (find header_end_mark c.read_buf ≡ some e) × (extract_at c e ≡ (c', some raw))
  extract_inv c' raw h = elim (Option-cases (find header_end_mark c.read_buf)) [
    | inl gone ↦ cc (extract_missing gone)
    | inr (e, found) ↦ (e, found, sym (extract_found e found) ∙ h)
  ]

-- The head's length and the declared body length do not wrap when they are added.
abbrev pub FitsWord : Bytes → Type 0
FitsWord buf =
    (e : ℕ)
    → find header_end_mark buf ≡ some e
    → e + 4 + parse_content_length (take (e + 4) buf) < size_mod

total_len-fits :
    (buf : Bytes) (n : ℕ)
    → n + parse_content_length (take n buf) < size_mod
    → total_len buf n ≡ n + parse_content_length (take n buf)
unfolding total_len
total_len-fits buf n h = omega arith

total_len-more :
    (buf more : Bytes) (n : ℕ) → n ≤ length buf → total_len (buf ++ more) n ≡ total_len buf n
unfolding total_len
total_len-more buf more n h =
    ap (λ s. (n + parse_content_length s) % size_mod) (take-append_left n buf more h)

total_len-wraps :
    (buf : Bytes) (n : ℕ)
    → size_mod ≤ n + parse_content_length (take n buf)
    → parse_content_length (take n buf) < size_mod
    → n < size_mod
    → total_len buf n ≡ n + parse_content_length (take n buf) - size_mod
unfolding total_len
total_len-wraps buf n h b s = omega arith

IsRequest-take :
    (buf : Bytes) (e total : ℕ)
    → IsFirst header_end_mark buf e
    → total ≡ e + 4 + parse_content_length (take (e + 4) buf)
    → total ≤ length buf
    → IsRequest (take total buf) (e + 4)
IsRequest-take buf e total f t h = record {
  mark = e;
  head_ends = IsFirst-take header_end_mark buf e total f (omega arith) h;
  head_len_is = refl;
  body_len_is = rw (length-take_fits total buf h, take-take (e + 4) total buf (omega arith)) t;
}

-- Only the buffer changes.
pub extract_one_request_keeps :
    (c c' : Connection) (raw : Bytes)
    → extract_one_request c ≡ (c', some raw)
    → c' ≡ after_read c c'.read_buf
extract_one_request_keeps c c' raw h =
    let (e, found, at) = extract_inv c c' raw h in
    let (enough, c'_is, raw_is) = extract_at-splits c e c' raw at in rw c'_is refl

-- What is extracted and what stays are together what was there.
pub extract_one_request-splits :
    (c c' : Connection) (raw : Bytes)
    → extract_one_request c ≡ (c', some raw)
    → c.read_buf ≡ raw ++ c'.read_buf
extract_one_request-splits c c' raw h =
    let (e, found, at) = extract_inv c c' raw h in
    let (enough, c'_is, raw_is) = extract_at-splits c e c' raw at in
    let total = total_len c.read_buf (e + 4) in
    rw (raw_is, c'_is) (sym (take-append-drop total c.read_buf))

-- What is extracted is one whole request, taken off the front of the buffer: the rest stays, and
-- nothing else of the connection changes. The head must not declare a length that wraps.
pub extract_one_request-IsRequest :
    (c c' : Connection) (raw : Bytes)
    → FitsWord c.read_buf
    → extract_one_request c ≡ (c', some raw)
    → ((head_len : ℕ) × IsRequest raw head_len)
      × (c' ≡ after_read c c'.read_buf)
      × (raw ++ c'.read_buf ≡ c.read_buf)
extract_one_request-IsRequest c c' raw fits h =
    let (e, found, at) = extract_inv c c' raw h in
    let (enough, c'_is, raw_is) = extract_at-splits c e c' raw at in
    let t = total_len-fits c.read_buf (e + 4) (fits e found) in
    (
      (
        e + 4,
        rw raw_is
            (IsRequest-take c.read_buf e _ (find-some header_end_mark c.read_buf e found) t enough),
      ),
      rw c'_is refl,
      rw (raw_is, c'_is) (take-append-drop _ c.read_buf),
    )

total_len-append :
    (raw rest : Bytes) (head_len : ℕ)
    → IsRequest raw head_len
    → length raw < size_mod
    → total_len (raw ++ rest) head_len ≡ length raw
total_len-append raw rest head_len r fits =
    let cut : take head_len (raw ++ rest) ≡ take head_len raw =
      take-append_left head_len raw rest (omega (arith, r.body_len_is)) in
    let same : parse_content_length (take head_len (raw ++ rest))
        ≡ parse_content_length (take head_len raw) =
      ap parse_content_length cut in
    total_len-fits (raw ++ rest) head_len (omega (arith, r.body_len_is))
    ∙ omega (arith, r.body_len_is)

-- A whole request at the front of the buffer is extracted exactly, whatever follows it.
pub extract_one_request_complete :
    (c : Connection) (raw rest : Bytes) (head_len : ℕ)
    → IsRequest raw head_len
    → length raw < size_mod
    → c.read_buf ≡ raw ++ rest
    → extract_one_request c ≡ (after_read c rest, some raw)
extract_one_request_complete c raw rest head_len r fits e =
    let found : find header_end_mark c.read_buf ≡ some r.mark = rw e (
      find-append header_end_mark raw rest r.mark
        (find-IsFirst header_end_mark raw r.mark r.head_ends)) in
    let total : total_len c.read_buf (r.mark + 4) ≡ length raw =
      rw (e, ← r.head_len_is) (total_len-append raw rest head_len r fits) in
    extract_found c r.mark found
    ∙ extract_at-long c r.mark (length raw) total
        (omega (arith, ap length e, length-append raw rest))
    ∙ rw (e, drop-length_append raw rest, take-length_append raw rest)

-- So `false` means that no whole request is there yet, and the connection is as it was.
pub extract_one_request_waits :
    (c c' : Connection)
    → extract_one_request c ≡ (c', none)
    → (c' ≡ c)
      × ((raw rest : Bytes) (head_len : ℕ)
          → IsRequest raw head_len
          → length raw < size_mod
          → c.read_buf ≢ raw ++ rest)
unfolding extract_one_request extract_at
extract_one_request_waits c c' h = (
  ground arith,
  λ raw rest head_len r fits e. cc (h, extract_one_request_complete c raw rest head_len r fits e),
)

-- Bytes that arrive later do not change what is extracted: they stand behind what was left.
pub extract_one_request-append_read_data :
    (c c' : Connection) (raw more : Bytes) (now : ℕ)
    → extract_one_request c ≡ (c', some raw)
    → extract_one_request (append_read_data now more c) ≡ (append_read_data now more c', some raw)
unfolding append_read_data
extract_one_request-append_read_data c c' raw more now h =
    let (e, found, at) = extract_inv c c' raw h in
    let (enough, c'_is, raw_is) = extract_at-splits c e c' raw at in
    let later = append_read_data now more c in
    let f = find-some header_end_mark c.read_buf e found in
    let total : total_len (c.read_buf ++ more) (e + 4) ≡ total_len c.read_buf (e + 4) =
      total_len-more c.read_buf more (e + 4) f.fits in
    extract_found later e (find-append header_end_mark c.read_buf more e found)
    ∙ extract_at-long later e _ total (omega (arith, length-append c.read_buf more))
    ∙ rw (
      drop-append_left _ c.read_buf more enough,
      take-append_left _ c.read_buf more enough,
      raw_is,
      c'_is,
    )

-- If the head declares a length that wraps, what is extracted is only a part of the head.
pub extract_one_request_wraps :
    (c : Connection) (e : ℕ)
    → find header_end_mark c.read_buf ≡ some e
    → size_mod ≤ e + 4 + parse_content_length (take (e + 4) c.read_buf)
    → e + 4 < size_mod
    → (n : ℕ) × (n < e + 4)
      × (extract_one_request c ≡ (after_read c (drop n c.read_buf), some (take n c.read_buf)))
extract_one_request_wraps c e found wraps small =
    let b = parse_content_length-lt (take (e + 4) c.read_buf) in
    let f = find-some header_end_mark c.read_buf e found in
    let fit = f.fits in
    let t = total_len-wraps c.read_buf (e + 4) wraps b small in
    (
      e + 4 + parse_content_length (take (e + 4) c.read_buf) - size_mod,
      omega arith,
      extract_found c e found ∙ extract_at-long c e _ t (omega arith),
    )
