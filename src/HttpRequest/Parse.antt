-- ===== src/HttpRequest/Parse.antt =====
-- `HttpRequest::parse` against a printer of requests, its loop, and the headers that it stores.
pub mod RoundTrip
use mini_server.Prelude.{
  ℕ, zero, suc, ◌+◌, ◌≤◌, ◌≡◌, refl, sym, ◌∙◌, ◌≢◌, ◌⊎◌, inl, inr, Bool, true, none, some, [], ◌∷◌,
  ◌++◌, arith, All, Option-cases, drop, drop-append_right, length, length-drop, take,
  take-length_append,
}
use mini_server.Bytes.{Bytes, crlf, find}
use mini_server.Bytes.Find.{find-append_none, find-some}
use mini_server.HttpRequest.{
  HttpRequest, LineResult, stop, continue, is_finish, parse_line, parse_loop, parse_header,
  set_header, normalize_header_key, trim,
}

module _ (fuel : ℕ) (rest : Bytes) (r : HttpRequest) where
  pub parse_loop-continue :
      (e : ℕ) (r' : HttpRequest)
      → find crlf rest ≡ some e
      → parse_line r.state (take e rest) (drop (e + 2) rest) r ≡ continue r'
      → parse_loop (suc fuel) rest r ≡ parse_loop fuel (drop (e + 2) rest) r'
  unfolding parse_loop
  parse_loop-continue e r' h k = rw (h, parse_loop, k)

  pub parse_loop-stop :
      (e : ℕ) (done : Bool) (r' : HttpRequest)
      → find crlf rest ≡ some e
      → parse_line r.state (take e rest) (drop (e + 2) rest) r ≡ stop done r'
      → parse_loop (suc fuel) rest r ≡ (done, r')
  unfolding parse_loop
  parse_loop-stop e done r' h k = rw (h, parse_loop, k)

  parse_loop-incomplete :
      find crlf rest ≡ none → parse_loop (suc fuel) rest r ≡ (is_finish r.state, r)
  unfolding parse_loop
  parse_loop-incomplete h = rw (h, parse_loop)

-- A shorter rest.
length-after_line :
    (rest : Bytes) (e : ℕ) → find crlf rest ≡ some e → length (drop (e + 2) rest) + 2 ≤ length rest
length-after_line rest e h =
    let f = find-some crlf rest e h in let b = f.fits in omega (arith, length-drop (e + 2) rest)

-- A line "key:value" stores the value under the key.
pub parse_header_lem :
    (key value : Bytes) (r : HttpRequest)
    → All (λ c. c ≢ b':') key
    → parse_header (key ++ b':' ∷ value) r
      ≡ (true, set_header (normalize_header_key (trim key)) (trim value) r)
unfolding parse_header
parse_header_lem key value r h = rw (
  find-append_none b':' [] key value h,
  parse_header,
  take-length_append key (b':' ∷ value),
  drop-append_right key b':' value,
)

LineResult-cases :
    (x : LineResult)
    → ((done : Bool) × ((r : HttpRequest) × (x ≡ stop done r)))
      ⊎ ((r : HttpRequest) × (x ≡ continue r))
LineResult-cases (stop done r) = inl (done, (r, refl))
LineResult-cases (continue r) = inr (r, refl)

find-crlf_empty : (rest : Bytes) → length rest ≤ 0 → find crlf rest ≡ none
unfolding find
find-crlf_empty [] h = refl
find-crlf_empty (c ∷ rest) h = absurd (omega arith)

parse_loop-zero :
    (g : ℕ) (rest : Bytes) (r : HttpRequest)
    → length rest ≤ 0
    → parse_loop g rest r ≡ (is_finish r.state, r)
unfolding parse_loop
parse_loop-zero zero rest r h = refl
parse_loop-zero (suc g) rest r h = parse_loop-incomplete g rest r (find-crlf_empty rest h)

-- The fuel that `parse` gives its loop is enough: any more gives the same result.
pub parse_loop-fuel :
    (f g : ℕ) (rest : Bytes) (r : HttpRequest)
    → length rest ≤ f
    → length rest ≤ g
    → parse_loop f rest r ≡ parse_loop g rest r
unfolding parse_loop
parse_loop-fuel zero g rest r hf hg = sym (parse_loop-zero g rest r hf)
parse_loop-fuel (suc f) zero rest r hf hg = parse_loop-zero (suc f) rest r hg
parse_loop-fuel (suc f) (suc g) rest r hf hg = elim (Option-cases (find crlf rest)) [
  | inl e ↦ parse_loop-incomplete f rest r e ∙ sym (parse_loop-incomplete g rest r e)
  | inr (e, at) ↦ elim (LineResult-cases (parse_line r.state (take e rest) (drop (e + 2) rest) r)) [
    | inl (done, (r', k)) ↦
        parse_loop-stop f rest r e done r' at k ∙ sym (parse_loop-stop g rest r e done r' at k)
    | inr (r', k) ↦
        let b = length-after_line rest e at in
        parse_loop-continue f rest r e r' at k
        ∙ parse_loop-fuel f g (drop (e + 2) rest) r' (omega arith) (omega arith)
        ∙ sym (parse_loop-continue g rest r e r' at k)
  ]
]
