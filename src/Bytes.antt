-- ===== src/Bytes.antt =====
-- `std::string` as the program uses it: a list of byte values. `find`, `rfind` and `substr` follow
-- the C++ library; the loops that scan a string are prefix functions.
pub mod Find
pub mod Scan
pub mod Decimal
pub mod Dict
pub mod Integer
use Prim.Native.Char.{code}
use Prim.Native.String.{String}
use mini_server.Prelude.{
  ℕ, suc, ◌+◌, ◌-◌, ◌*◌, ◌≡◌, refl, Bool, true, false, ◌&&◌, ◌||◌, List, [], ◌∷◌, map, Option, none,
  some, arith, leb, ◌==◌, if◌then◌else◌, take, drop, ==-refl,
}
use mathlib.Core.Option

abbrev pub Bytes : Type 0
Bytes = List ℕ

-- The bytes of an ASCII literal.
abbrev pub codes : String → Bytes
codes String.[] = []
codes (String.◌∷◌ c s) = code c ∷ codes s

abbrev pub crlf : Bytes
crlf = 13 ∷ 10 ∷ []

-- operator==
unfoldable pub beq : Bytes → Bytes → Bool
beq [] [] = true
beq [] (y ∷ ys) = false
beq (x ∷ xs) [] = false
beq (x ∷ xs) (y ∷ ys) = x == y && beq xs ys

unfoldable pub starts_with : Bytes → Bytes → Bool
starts_with [] s = true
starts_with (p ∷ ps) [] = false
starts_with (p ∷ ps) (c ∷ cs) = p == c && starts_with ps cs

-- s.find(p): the index of the first occurrence, or npos.
unfoldable pub find : Bytes → Bytes → Option ℕ
unfolding starts_with
find [] s = some 0
find (p ∷ ps) [] = none
find (p ∷ ps) (c ∷ cs) =
    if starts_with (p ∷ ps) (c ∷ cs) then some 0 else Option.map suc (find (p ∷ ps) cs)

-- s.rfind(c) for one character.
unfoldable pub rfind_char : ℕ → Bytes → Option ℕ
rfind_char p [] = none
rfind_char p (c ∷ cs) = elim (rfind_char p cs) [
  | some i ↦ some (suc i)
  | none ↦ if c == p then some 0 else none
]

-- s.substr(pos, n), for pos ≤ size.
abbrev pub substr : Bytes → ℕ → ℕ → Bytes
substr s pos n = take n (drop pos s)

-- The longest prefix whose bytes all pass the test, and what is left of the string after it.
unfoldable pub take_while : (ℕ → Bool) → Bytes → Bytes
take_while test [] = []
take_while test (c ∷ cs) = if test c then c ∷ take_while test cs else []

unfoldable pub drop_while : (ℕ → Bool) → Bytes → Bytes
drop_while test [] = []
drop_while test (c ∷ cs) = if test c then drop_while test cs else c ∷ cs

-- The byte `c` in front of what is kept of the bytes after it.
unfoldable pub keep_byte : (ℕ → Bool) → ℕ → Bytes → Bytes
keep_byte test c [] = if test c then [] else c ∷ []
keep_byte test c (d ∷ ds) = c ∷ d ∷ ds

-- The string without the longest suffix whose bytes all pass the test.
unfoldable pub drop_while_end : (ℕ → Bool) → Bytes → Bytes
unfolding keep_byte
drop_while_end test [] = []
drop_while_end test (c ∷ cs) = keep_byte test c (drop_while_end test cs)

-- std::isspace, std::isdigit, [A-Z] and std::tolower in the C locale.
abbrev pub is_space : ℕ → Bool
is_space c = c == 32 || leb 9 c && leb c 13

abbrev pub is_digit : ℕ → Bool
is_digit c = leb b'0' c && leb c b'9'

abbrev pub is_upper : ℕ → Bool
is_upper c = leb b'A' c && leb c b'Z'

unfoldable pub lower : ℕ → ℕ
lower c = if is_upper c then c + 32 else c

-- std::transform(..., tolower)
unfoldable pub to_lower : Bytes → Bytes
unfolding lower
to_lower = map lower

-- The value of a string of decimal digits, read from the left.
unfoldable pub decimal_from : ℕ → Bytes → ℕ
decimal_from acc [] = acc
decimal_from acc (c ∷ cs) = decimal_from (acc * 10 + (c - b'0')) cs

pub beq_refl : (s : Bytes) → beq s s ≡ true
unfolding beq
beq_refl [] = refl
beq_refl (c ∷ cs) = rw (==-refl c, beq_refl cs)

pub beq→eq : (s t : Bytes) → beq s t ≡ true → s ≡ t
unfolding beq
beq→eq [] [] h = refl
beq→eq [] (y ∷ ys) h = cc
beq→eq (x ∷ xs) [] h = cc
beq→eq (x ∷ xs) (y ∷ ys) h = ground (arith, beq→eq xs ys)
