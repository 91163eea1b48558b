-- ===== src/Bytes/Integer.antt =====
-- Signed results, the number that `std::atoi` reads before it is cut to an `int`, and `std::strtoul` in base 10.
pub mod Printed
use mini_server.Prelude.{ℕ, zero, suc, ◌-◌, ◌%◌, ◌^◌, [], ◌∷◌, if◌then◌else◌, ltb, ◌==◌}
use mini_server.Bytes.{Bytes, is_space, is_digit, take_while, drop_while, decimal_from}

-- `negsuc n` is -(n + 1).
pub data ℤ : Type 0 where
  pos : ℕ → ℤ
  negsuc : ℕ → ℤ

abbrev neg : ℕ → ℤ
neg zero = pos 0
neg (suc n) = negsuc n

abbrev pub leading_digits : Bytes → ℕ
leading_digits s = decimal_from 0 (take_while is_digit s)

-- Behind the white space: one sign at most, and the digits.
unfoldable pub atoi_signed : Bytes → ℤ
atoi_signed [] = pos 0
atoi_signed (c ∷ cs) =
    if c == b'-'
    then neg (leading_digits cs)
    else if c == b'+'
    then pos (leading_digits cs)
    else pos (leading_digits (c ∷ cs))

unfoldable pub atoi : Bytes → ℤ
unfolding atoi_signed
atoi s = atoi_signed (drop_while is_space s)

abbrev pub ulong_mod : ℕ
ulong_mod = 2 ^ 64

-- A number beyond `unsigned long` gives the greatest one; a sign negates modulo 2^64.
abbrev pub clamp_ulong : ℕ → ℕ
clamp_ulong n = if ltb n ulong_mod then n else ulong_mod - 1

abbrev negated_ulong : ℕ → ℕ
negated_ulong n = if ltb n ulong_mod then (ulong_mod - n) % ulong_mod else ulong_mod - 1

unfoldable pub strtoul_signed : Bytes → ℕ
strtoul_signed [] = 0
strtoul_signed (c ∷ cs) =
    if c == b'-'
    then negated_ulong (leading_digits cs)
    else if c == b'+'
    then clamp_ulong (leading_digits cs)
    else clamp_ulong (leading_digits (c ∷ cs))

unfoldable pub strtoul : Bytes → ℕ
unfolding strtoul_signed
strtoul s = strtoul_signed (drop_while is_space s)
