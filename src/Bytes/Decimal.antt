-- ===== src/Bytes/Decimal.antt =====
-- `std::to_string` of an unsigned number, and its decimal value.
use mini_server.Prelude.{
  ℕ, zero, suc, ◌+◌, ◌/◌, ◌%◌, ◌<◌, ◌≡◌, ap, ◌∙◌, ◌≢◌, inl, inr, true, [], ◌∷◌, arith, All,
  Bool-cases, if◌then◌else◌, ltb, not-ltb→le,
}
use mini_server.Bytes.{Bytes, is_digit, decimal_from}

-- The digits of `n` in front of `acc`; the fuel bounds the number of digits.
to_decimal_loop : ℕ → ℕ → Bytes → Bytes
to_decimal_loop zero n acc = acc
to_decimal_loop (suc f) n acc =
    let more = to_decimal_loop f (n / 10) ((b'0' + n % 10) ∷ acc) in
    if ltb n 10 then (b'0' + n) ∷ acc else more

unfoldable pub to_decimal : ℕ → Bytes
unfolding to_decimal_loop
to_decimal n = to_decimal_loop (suc n) n []

decimal_from-loop :
    (f n : ℕ) (acc : Bytes) → n < f → decimal_from 0 (to_decimal_loop f n acc) ≡ decimal_from n acc
unfolding to_decimal_loop decimal_from
decimal_from-loop zero n acc h = absurd (omega arith)
decimal_from-loop (suc f) n acc h = elim (Bool-cases (ltb n 10)) [
  | inl small ↦ rw small (ap (λ k. decimal_from k acc) (omega arith))
  | inr big ↦ rw big (
      decimal_from-loop f (n / 10) ((b'0' + n % 10) ∷ acc)
        (let b = not-ltb→le n 10 big in omega arith)
      ∙ ap (λ k. decimal_from k acc) (omega arith))
]

-- The printed number reads back as the number.
pub decimal_from-to_decimal : (n : ℕ) → decimal_from 0 (to_decimal n) ≡ n
unfolding to_decimal decimal_from
decimal_from-to_decimal n = decimal_from-loop (suc n) n [] (omega arith)

abbrev pub IsDigit : ℕ → Type 0
IsDigit c = is_digit c ≡ true

loop-IsDigit : (f n : ℕ) (acc : Bytes) → All IsDigit acc → All IsDigit (to_decimal_loop f n acc)
unfolding to_decimal_loop
loop-IsDigit zero n acc h = h
loop-IsDigit (suc f) n acc h =
    ground (arith, loop-IsDigit f (n / 10) ((b'0' + n % 10) ∷ acc) (ground arith, h))

pub to_decimal-IsDigit : (n : ℕ) → All IsDigit (to_decimal n)
unfolding to_decimal
to_decimal-IsDigit n = loop-IsDigit (suc n) n [] tt

loop-ne_nil : (f n d : ℕ) (acc : Bytes) → to_decimal_loop f n (d ∷ acc) ≢ []
unfolding to_decimal_loop
loop-ne_nil zero n d acc h = cc
loop-ne_nil (suc f) n d acc h = elim (Bool-cases (ltb n 10)) [
  | inl small ↦ cc (rw small at h)
  | inr big ↦ loop-ne_nil f (n / 10) (b'0' + n % 10) (d ∷ acc) (rw big at h)
]

pub to_decimal-ne_nil : (n : ℕ) → to_decimal n ≢ []
unfolding to_decimal to_decimal_loop
to_decimal-ne_nil n h = elim (Bool-cases (ltb n 10)) [
  | inl small ↦ cc (rw small at h)
  | inr big ↦ loop-ne_nil n (n / 10) (b'0' + n % 10) [] (rw big at h)
]
