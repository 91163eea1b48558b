-- ===== src/Connection/ContentLength.antt =====
-- What `Connection::parseContentLength` reads out of a head.
use mini_server.Prelude.{
  ℕ, ◌+◌, ◌<◌, ◌≡◌, refl, ap, ◌≢◌, inl, inr, [], ◌∷◌, ◌++◌, arith, All, Option-cases, drop, length,
  lt→ltb,
}
use mini_server.Bytes.{Bytes, lower, to_lower, is_digit, decimal_from, find}
use mini_server.Bytes.Find.{IsFirst, find-IsFirst}
use mini_server.Bytes.Scan.{Passes, Stops, take_while-append, drop_while-append}
use mini_server.Bytes.Decimal.{
  to_decimal, IsDigit, decimal_from-to_decimal, to_decimal-IsDigit, to_decimal-ne_nil,
}
use mini_server.Connection.{
  size_mod, content_length_key, is_blank, stoul_or_zero, content_length_at, parse_content_length,
  content_length_in,
}

lower_idem : (c : ℕ) → lower (lower c) ≡ lower c
unfolding lower
lower_idem c = ground arith

to_lower_idem : (s : Bytes) → to_lower (to_lower s) ≡ to_lower s
unfolding to_lower
to_lower_idem [] = refl
to_lower_idem (c ∷ s) = cc (lower_idem c, to_lower_idem s)

-- The case of the letters in a head does not change its content length.
pub parse_content_length-to_lower :
    (s : Bytes) → parse_content_length (to_lower s) ≡ parse_content_length s
unfolding parse_content_length
parse_content_length-to_lower s = ap content_length_in (to_lower_idem s)

stoul_or_zero-lt : (s : Bytes) → stoul_or_zero s < size_mod
unfolding stoul_or_zero
stoul_or_zero-lt [] = omega arith
stoul_or_zero-lt (d ∷ s) = ground arith

-- It is a `size_t`, whatever the head holds.
pub parse_content_length-lt : (s : Bytes) → parse_content_length s < size_mod
unfolding parse_content_length
parse_content_length-lt s = elim (Option-cases (find content_length_key (to_lower s))) [
  | inl e ↦ rw (e, content_length_in) (omega arith)
  | inr (pos, e) ↦ rw (e, content_length_in) (stoul_or_zero-lt _)
]

-- A byte that `tolower` keeps.
abbrev IsLow : ℕ → Type 0
IsLow c = lower c ≡ c

to_lower-low : (s : Bytes) → All IsLow s → to_lower s ≡ s
unfolding to_lower
to_lower-low [] h = refl
to_lower-low (c ∷ s) h = cc (h.0, to_lower-low s h.1)

digits-IsLow : (s : Bytes) → All IsDigit s → All IsLow s
unfolding lower
digits-IsLow [] h = tt
digits-IsLow (c ∷ s) h = (ground arith, digits-IsLow s h.1)

digits-stop : (s t : Bytes) → All IsDigit s → s ≢ [] → Stops is_blank (s ++ t)
digits-stop [] t h n = absurd (n refl)
digits-stop (c ∷ s) t h n = ground arith

stoul-digits :
    (s : Bytes) → s ≢ [] → decimal_from 0 s < size_mod → stoul_or_zero s ≡ decimal_from 0 s
unfolding stoul_or_zero
stoul-digits [] n h = absurd (n refl)
stoul-digits (c ∷ s) n h = rw (lt→ltb _ _ h)

-- The bytes behind the key: blanks, the number, and bytes that do not go on with digits.
module _ (n : ℕ) (blanks tail : Bytes) (fits : n < size_mod) (bs : All (Passes is_blank) blanks)
    (ends : Stops is_digit tail) where
  content_length_at-to_decimal :
      (lowered : Bytes) (pos : ℕ)
      → drop (pos + length content_length_key) lowered ≡ blanks ++ (to_decimal n ++ tail)
      → content_length_at lowered pos ≡ n
  content_length_at-to_decimal lowered pos e =
      rw
        (
          e,
          drop_while-append is_blank blanks (to_decimal n ++ tail) bs
              (digits-stop (to_decimal n) tail (to_decimal-IsDigit n) (to_decimal-ne_nil n)),
          take_while-append is_digit (to_decimal n) tail (to_decimal-IsDigit n) ends,
          stoul-digits (to_decimal n) (to_decimal-ne_nil n) (rw (decimal_from-to_decimal n) fits),
        )
        (decimal_from-to_decimal n)

  -- A head whose first "content-length:", in any case, is followed by blanks and the decimal digits
  -- of `n < 2^64` has the content length `n`, also if a longer name or the request line holds the key.
  pub parse_content_length-to_decimal :
      (head : Bytes) (pos : ℕ)
      → IsFirst content_length_key (to_lower head) pos
      → drop (pos + length content_length_key) (to_lower head) ≡ blanks ++ (to_decimal n ++ tail)
      → parse_content_length head ≡ n
  unfolding parse_content_length
  parse_content_length-to_decimal head pos f e =
      rw (find-IsFirst content_length_key (to_lower head) pos f, content_length_in)
        (content_length_at-to_decimal (to_lower head) pos e)
