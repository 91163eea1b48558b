-- ===== src/HttpRequest/UrlDecode.antt =====
-- `HttpRequest::urlDecode` against an encoding of its own.
use mini_server.Prelude.{
  ℕ, ◌+◌, ◌-◌, ◌*◌, ◌/◌, ◌%◌, ◌≤◌, ◌<◌, ◌≡◌, refl, ◌∙◌, ◌≢◌, some, [], ◌∷◌, arith, All,
  if◌then◌else◌, length, ltb, ne→==,
}
use mini_server.Bytes.{Bytes}
use mini_server.HttpRequest.{hex_digit, strtol_hex, plus_to_space, url_decode}

-- Two digits that `strtol` reads as the byte `c`: "%XY", in either case of the letters.
pub record IsHexPair (a b c : ℕ) : Type 0 where
  pub high : ℕ
  pub low : ℕ
  pub high_is : hex_digit a ≡ some high
  pub low_is : hex_digit b ≡ some low
  pub byte_is : c ≡ high * 16 + low

-- `Encodes e s`: the text `e` is an encoding of `s`, byte by byte: a byte but "%" and "+" as itself,
-- a blank as "+", any byte as "%" and two digits.
pub data Encodes : Bytes → Bytes → Type 0 where
  nil : Encodes [] []
  plain : {c : ℕ} {e s : Bytes} → c ≢ b'%' → c ≢ b'+' → Encodes e s → Encodes (c ∷ e) (c ∷ s)
  plus : {c d : ℕ} {e s : Bytes} → c ≡ b'+' → d ≡ b' ' → Encodes e s → Encodes (c ∷ e) (d ∷ s)
  escaped :
      {p a b c : ℕ} {e s : Bytes}
      → p ≡ b'%'
      → IsHexPair a b c
      → Encodes e s
      → Encodes (p ∷ a ∷ b ∷ e) (c ∷ s)

-- A byte that is no "%" is decoded by itself.
url_decode-cons :
    (c : ℕ) (e : Bytes) → c ≢ b'%' → url_decode (c ∷ e) ≡ plus_to_space c ∷ url_decode e
unfolding url_decode
url_decode-cons c [] h = refl
url_decode-cons c (a ∷ []) h = refl
url_decode-cons c (a ∷ b ∷ rest) h = rw (ne→== c b'%' h)

hex_digit-chars : (a x : ℕ) → hex_digit a ≡ some x → (a ≢ b'+') × (a ≢ b'-') × (a ≢ b' ') × (13 < a)
unfolding hex_digit
hex_digit-chars a x h = (ground arith, ground arith, ground arith, ground arith)

strtol_hex-pair : (a b c : ℕ) → IsHexPair a b c → strtol_hex a b ≡ c
unfolding strtol_hex
strtol_hex-pair a b c h =
    let (p, m, s, n) = hex_digit-chars a h.high h.high_is in
    rw (ne→== a b' ' s, ne→== a b'+' p, ne→== a b'-' m, h.high_is, h.low_is) (ground arith)

-- `urlDecode` undoes every encoding of a text in which each byte stands for itself, is a blank written as
-- "+", or is escaped with two hexadecimal digits.
pub url_decode-Encodes : (e s : Bytes) → Encodes e s → url_decode e ≡ s
unfolding url_decode
url_decode-Encodes e s nil = refl
url_decode-Encodes (c ∷ e) (d ∷ s) (plain p q h) =
    url_decode-cons c e p ∙ rw (ne→== c b'+' q, url_decode-Encodes e s h)
url_decode-Encodes (c ∷ e) (d ∷ s) (plus p q h) =
    url_decode-cons c e (omega arith) ∙ rw (p, q, url_decode-Encodes e s h)
url_decode-Encodes (p ∷ a ∷ b ∷ e) (c ∷ s) (escaped q h k) =
    rw (q, strtol_hex-pair a b c h, url_decode-Encodes e s k)

-- The digit that prints a value below 16.
hex_char : ℕ → ℕ
hex_char d = if ltb d 10 then b'0' + d else b'A' + (d - 10)

hex_digit-hex_char : (d : ℕ) → d < 16 → hex_digit (hex_char d) ≡ some d
unfolding hex_digit hex_char
hex_digit-hex_char d h = ground arith

-- Every byte as "%XY".
unfoldable pub percent_encode : Bytes → Bytes
unfolding hex_char
percent_encode [] = []
percent_encode (c ∷ s) = b'%' ∷ hex_char (c / 16) ∷ hex_char (c % 16) ∷ percent_encode s

percent_encode-Encodes : (s : Bytes) → All (λ c. c < 256) s → Encodes (percent_encode s) s
unfolding percent_encode
percent_encode-Encodes [] h = nil
percent_encode-Encodes (c ∷ s) h =
    escaped refl
      (record {
        high = c / 16;
        low = c % 16;
        high_is = hex_digit-hex_char (c / 16) (let b = h.0 in omega arith);
        low_is = hex_digit-hex_char (c % 16) (omega arith);
        byte_is = omega arith;
      })
      (percent_encode-Encodes s h.1)

-- A string of bytes comes back from its escaped form.
pub url_decode-percent_encode :
    (s : Bytes) → All (λ c. c < 256) s → url_decode (percent_encode s) ≡ s
url_decode-percent_encode s h = url_decode-Encodes (percent_encode s) s (percent_encode-Encodes s h)

-- Decoding never lengthens a text.
length-url_decode-le : (e : Bytes) → length (url_decode e) ≤ length e
unfolding url_decode
length-url_decode-le [] = omega arith
length-url_decode-le (c ∷ []) = omega arith
length-url_decode-le (c ∷ a ∷ []) = omega arith
length-url_decode-le (c ∷ a ∷ b ∷ rest) =
    ground (arith, length-url_decode-le rest, length-url_decode-le (a ∷ b ∷ rest))
