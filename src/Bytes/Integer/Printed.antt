-- ===== src/Bytes/Integer/Printed.antt =====
-- What `std::atoi` and `std::strtoul` read of a printed number.
use mini_server.Prelude.{ℕ, ◌≡◌, refl, ap, ◌∙◌, ◌≢◌, false, [], ◌∷◌, arith, All, ◌==◌}
use mini_server.Bytes.{Bytes, is_space, is_digit, take_while, drop_while, decimal_from}
use mini_server.Bytes.Decimal.{
  to_decimal, IsDigit, to_decimal-IsDigit, to_decimal-ne_nil, decimal_from-to_decimal,
}
use mini_server.Bytes.Integer.{pos, atoi, atoi_signed, strtoul, strtoul_signed, clamp_ulong}

take_while-digits : (s : Bytes) → All IsDigit s → take_while is_digit s ≡ s
unfolding take_while
take_while-digits [] h = refl
take_while-digits (c ∷ s) h = rw (h.0, take_while-digits s h.1)

-- A digit is no white space and no sign.
digits-signed :
    (c : ℕ) (s : Bytes)
    → All IsDigit (c ∷ s)
    → (atoi (c ∷ s) ≡ pos (decimal_from 0 (c ∷ s)))
      × (strtoul (c ∷ s) ≡ clamp_ulong (decimal_from 0 (c ∷ s)))
unfolding atoi strtoul atoi_signed strtoul_signed drop_while
digits-signed c s h =
    let digit = h.0 in
    let no_blank : is_space c ≡ false = ground arith in
    let no_minus : (c == b'-') ≡ false = ground arith in
    let no_plus : (c == b'+') ≡ false = ground arith in
    rw (no_blank, no_minus, no_plus, take_while-digits (c ∷ s) h) (refl, refl)

digits_read :
    (s : Bytes)
    → All IsDigit s
    → s ≢ []
    → (atoi s ≡ pos (decimal_from 0 s)) × (strtoul s ≡ clamp_ulong (decimal_from 0 s))
digits_read [] h n = absurd (n refl)
digits_read (c ∷ s) h n = digits-signed c s h

printed_read : (n : ℕ) → (atoi (to_decimal n) ≡ pos n) × (strtoul (to_decimal n) ≡ clamp_ulong n)
printed_read n =
    let (signed, unsigned) =
      digits_read (to_decimal n) (to_decimal-IsDigit n) (to_decimal-ne_nil n) in
    (
      signed ∙ ap pos (decimal_from-to_decimal n),
      unsigned ∙ ap clamp_ulong (decimal_from-to_decimal n),
    )

pub atoi-to_decimal : (n : ℕ) → atoi (to_decimal n) ≡ pos n
atoi-to_decimal n = (printed_read n).0

pub strtoul-to_decimal : (n : ℕ) → strtoul (to_decimal n) ≡ clamp_ulong n
strtoul-to_decimal n = (printed_read n).1
