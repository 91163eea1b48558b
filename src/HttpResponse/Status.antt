-- ===== src/HttpResponse/Status.antt =====
-- The status line and `statusCodeFromResponse`.
use mathlib.Core.List.{append_assoc}
use mini_server.Prelude.{
  ℕ, zero, suc, ◌≤◌, ◌<◌, ◌≡◌, refl, sym, ap, ◌∙◌, Bool, true, false, ◌&&◌, ◌||◌, ◌++◌, arith,
  length, length-append, ltb, take, take-length_append, ◌==◌,
}
use mini_server.Bytes.{Bytes, crlf, codes, find, starts_with}
use mini_server.Bytes.Decimal.{to_decimal}
use mini_server.Bytes.Integer.{pos}
use mini_server.Bytes.Integer.Printed.{atoi-to_decimal}
use mini_server.HttpResponse.{
  get_status_line, status_text, status_code_at, status_code_from_response,
}

-- Every value below a bound, by evaluation.
all_below : ℕ → (ℕ → Bool) → Bool
all_below zero test = true
all_below (suc n) test = test n && all_below n test

all_below_sound :
    (n : ℕ) (test : ℕ → Bool) (x : ℕ) → all_below n test ≡ true → x < n → test x ≡ true
unfolding all_below
all_below_sound zero test x h lt = absurd (omega arith)
all_below_sound (suc n) test x h lt = ground (arith, all_below_sound n test x)

three_digits_table : all_below 1000 (λ c. ltb c 100 || length (to_decimal c) == 3) ≡ true
unfolding all_below to_decimal
three_digits_table = refl

three_digits : (c : ℕ) → 100 ≤ c → c < 1000 → length (to_decimal c) ≡ 3
three_digits c low high =
    let t =
      all_below_sound 1000 (λ c. ltb c 100 || length (to_decimal c) == 3) c three_digits_table
        high in
    ground arith

-- The three bytes behind the first blank are the code's digits.
status_code_at-digits :
    (code : ℕ) (rest : Bytes)
    → 100 ≤ code
    → code < 1000
    → status_code_at (codes "HTTP/1.1 " ++ (to_decimal code ++ rest)) 8 ≡ pos code
unfolding status_code_at
status_code_at-digits code rest low high =
    let three = three_digits code low high in
    let enough : ltb (length (codes "HTTP/1.1 " ++ (to_decimal code ++ rest))) 12 ≡ false =
      (let size = length-append (to_decimal code) rest in ground arith) in
    let cut : take 3 (to_decimal code ++ rest) ≡ to_decimal code =
      ap (λ n. take n (to_decimal code ++ rest)) (sym three)
      ∙ take-length_append (to_decimal code) rest in
    rw (enough, cut, atoi-to_decimal code) refl

-- The code comes back from a response that starts with its status line, whatever follows.
pub status_code_from_response-get_status_line :
    (code : ℕ) (rest : Bytes)
    → 100 ≤ code
    → code < 1000
    → status_code_from_response (get_status_line code ++ rest) ≡ pos code
unfolding status_code_from_response get_status_line find starts_with
status_code_from_response-get_status_line code rest low high =
    ap (λ s. status_code_at (codes "HTTP/1.1 " ++ s) 8)
      (append_assoc (to_decimal code) (codes " " ++ (status_text code ++ crlf)) rest)
    ∙ status_code_at-digits code _ low high
