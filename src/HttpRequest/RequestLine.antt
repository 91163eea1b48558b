-- ===== src/HttpRequest/RequestLine.antt =====
-- The request line: the matcher beside the regular expression `^([A-Z]+) ([^ ]+) HTTP/([0-9.]+)\r?$`
-- and its groups.
use mini_server.Prelude.{
  ℕ, ◌≡◌, refl, sym, ap, ◌∙◌, subst, ◌↔◌, ◌⊎◌, inl, inr, Bool, true, false, Option, none, some, [],
  ◌∷◌, ◌++◌, arith, ==→eq, All, Bool-cases, Option-cases, drop, some_eq,
}
use mini_server.Bytes.{Bytes, is_upper, starts_with, take_while, drop_while}
use mini_server.Bytes.Find.{starts_with_self, starts_with-take}
use mini_server.Bytes.Scan.{
  Passes, Stops, take_while-append-drop_while, take_while-Passes, take_while-append,
  drop_while-append,
}
use mini_server.HttpRequest.{
  ◌>>=◌, RequestLineMatch, is_version_byte, not_blank, http_slash, match_end, non_empty,
  match_version, skip_blank, match_group, match_request_line,
}

-- One group `[...]+`.
pub record IsGroup (test : ℕ → Bool) (s : Bytes) : Type 0 where
  pub passes : All (Passes test) s
  pub not_empty : non_empty s ≡ true

-- The end of the line: nothing, or one carriage return.
abbrev IsEnd : Bytes → Type 0
IsEnd s = (s ≡ []) ⊎ (s ≡ 13 ∷ [])

-- The line is the three groups with what the expression has between them.
pub record Matches (line : Bytes) (m : RequestLineMatch) : Type 0 where
  pub method_is : IsGroup is_upper m.method_text
  pub uri_is : IsGroup not_blank m.uri
  pub version_is : IsGroup is_version_byte m.version_text
  pub end : Bytes
  pub end_is : IsEnd end
  pub line_is :
      line ≡ m.method_text ++ (b' ' ∷ (m.uri ++ (b' ' ∷ (http_slash ++ (m.version_text ++ end)))))

match_end-IsEnd : (s : Bytes) → match_end s ≡ true → IsEnd s
unfolding match_end
match_end-IsEnd [] h = inl refl
match_end-IsEnd (c ∷ []) h = inr (ap (λ k. k ∷ []) (==→eq c 13 h))
match_end-IsEnd (c ∷ d ∷ s) h = cc

IsEnd-match_end : (s : Bytes) → IsEnd s → (match_end s ≡ true) × Stops is_version_byte s
unfolding match_end
IsEnd-match_end s (inl e) = rw e (refl, tt)
IsEnd-match_end s (inr e) = rw e (refl, refl)

skip_blank-some : (s t : Bytes) → skip_blank s ≡ some t → s ≡ b' ' ∷ t
unfolding skip_blank
skip_blank-some [] t h = cc
skip_blank-some (c ∷ s) t h = ground arith

group_pair :
    (g g' r r' : Bytes)
    → ◌≡◌ {A = Option (Bytes × Bytes)} (some (g, r)) (some (g', r'))
    → (g ≡ g') × (r ≡ r')
group_pair g g' r r' h = (cc, cc)

version_tests :
    (s v : Bytes)
    → match_version s ≡ some v
    → (starts_with http_slash s ≡ true)
      × (non_empty (take_while is_version_byte (drop 5 s)) ≡ true)
      × (match_end (drop_while is_version_byte (drop 5 s)) ≡ true)
      × (take_while is_version_byte (drop 5 s) ≡ v)
unfolding match_version
version_tests s v h = ground arith

-- A group that its class ends at a blank.
module _ (test : ℕ → Bool) (blank_stops : test b' ' ≡ false) where
  match_group-some :
      (s g rest : Bytes)
      → match_group test s ≡ some (g, rest)
      → IsGroup test g × (s ≡ g ++ (b' ' ∷ rest))
  unfolding match_group
  match_group-some s g rest h = elim (Option-cases (skip_blank (drop_while test s))) [
    | inl gone ↦ cc (rw (gone, match_group) at h)
    | inr (r, found) ↦ elim (Bool-cases (non_empty (take_while test s))) [
      | inl full ↦
          let (g_is, rest_is) =
            group_pair (take_while test s) g r rest (rw (found, match_group, full) at h) in
          (
            rw (← g_is) (record { passes = take_while-Passes test s; not_empty = full }),
            sym (take_while-append-drop_while test s)
                ∙ rw (skip_blank-some _ r found, g_is, rest_is) refl,
          )
      | inr nothing ↦ cc (rw (found, match_group, nothing) at h)
    ]
  ]

  match_group-append :
      (g rest : Bytes) → IsGroup test g → match_group test (g ++ (b' ' ∷ rest)) ≡ some (g, rest)
  unfolding match_group skip_blank
  match_group-append g rest p = rw (
    drop_while-append test g (b' ' ∷ rest) p.passes blank_stops,
    take_while-append test g (b' ' ∷ rest) p.passes blank_stops,
    match_group,
    p.not_empty,
  )

match_version-some :
    (s v : Bytes)
    → match_version s ≡ some v
    → IsGroup is_version_byte v × ((end : Bytes) × IsEnd end × (s ≡ http_slash ++ (v ++ end)))
unfolding match_version
match_version-some s v h =
    let (started, full, ended, v_is) = version_tests s v h in
    let tail : Bytes = drop_while is_version_byte (drop 5 s) in
    (
      rw (← v_is)
          (record { passes = take_while-Passes is_version_byte (drop 5 s); not_empty = full }),
      (
        tail,
        match_end-IsEnd tail ended,
        sym (starts_with-take http_slash s started)
            ∙ ap (◌++◌ http_slash) (
                sym (take_while-append-drop_while is_version_byte (drop 5 s))
                ∙ ap (λ k. k ++ tail) v_is),
      ),
    )

match_version-append :
    (v end : Bytes)
    → IsGroup is_version_byte v
    → IsEnd end
    → match_version (http_slash ++ (v ++ end)) ≡ some v
unfolding match_version
match_version-append v end p e =
    let (ended, stops) = IsEnd-match_end end e in
    rw (
      starts_with_self http_slash (v ++ end),
      take_while-append is_version_byte v end p.passes stops,
      drop_while-append is_version_byte v end p.passes stops,
      ended,
      p.not_empty,
    )

-- Inversion of a successful step of the `do` block.
>>=-eq-some {ℓ κ} :
    {A : Type ℓ} {B : Type κ} (m : Option A) (f : A → Option B) {b : B}
    → (m >>= f) ≡ some b
    → (a : A) × (m ≡ some a) × (f a ≡ some b)
>>=-eq-some none f h = cc
>>=-eq-some (some a) f h = (a, refl, h)

parts-Matches :
    (line g u v rest rest' : Bytes)
    → IsGroup is_upper g × (line ≡ g ++ (b' ' ∷ rest))
    → IsGroup not_blank u × (rest ≡ u ++ (b' ' ∷ rest'))
    → IsGroup is_version_byte v × ((end : Bytes) × IsEnd end × (rest' ≡ http_slash ++ (v ++ end)))
    → Matches line (record { method_text = g; uri = u; version_text = v })
parts-Matches line g u v rest rest' (p, e) (q, e') (r, (end, k, e'')) = record {
  method_is = p;
  uri_is = q;
  version_is = r;
  end = end;
  end_is = k;
  line_is = rw (e, e', e'') refl;
}

match_request_line-Matches :
    (line : Bytes) (m : RequestLineMatch) → match_request_line line ≡ some m → Matches line m
unfolding match_request_line
match_request_line-Matches line m h =
    let ((g, rest), e, h') = >>=-eq-some (match_group is_upper line) _ h in
    let ((u, rest'), e', h'') = >>=-eq-some (match_group not_blank rest) _ h' in
    let (v, e'', m_is) = >>=-eq-some (match_version rest') _ h'' in
    subst (Matches line) (some_eq m_is) (
      parts-Matches line g u v rest rest' (match_group-some is_upper refl line g rest e)
        (match_group-some not_blank refl rest u rest' e') (match_version-some rest' v e''))

Matches-match_request_line :
    (line : Bytes) (m : RequestLineMatch) → Matches line m → match_request_line line ≡ some m
unfolding match_request_line
Matches-match_request_line line m h = rw (
  h.line_is,
  match_group-append is_upper refl m.method_text _ h.method_is,
  match_request_line,
  match_group-append not_blank refl m.uri _ h.uri_is,
  match_version-append m.version_text h.end h.version_is h.end_is,
)

-- The matcher accepts a line with these groups exactly if the expression does.
pub match_request_line_iff :
    (line : Bytes) (m : RequestLineMatch) → (match_request_line line ≡ some m) ↔ Matches line m
match_request_line_iff line m =
    (match_request_line-Matches line m, Matches-match_request_line line m)
