-- ===== src/Connection/Sending.antt =====
-- The write side: what is still to be sent, and what `consumeWriteData` leaves of it.
use mathlib.Core.List.{append-nil}
use mini_server.Prelude.{
  ℕ, zero, suc, ◌+◌, ◌-◌, ◌≤◌, ◌<◌, min, ◌≡◌, refl, sym, ap, ◌∙◌, ◌↔◌, ◌⊎◌, inl, inr, true, Option,
  none, some, [], ◌∷◌, ◌++◌, arith, Bool-cases, drop, drop-all, drop-drop, leb, leb→le, length,
  length-append, length-drop, not-leb→lt,
}
use mathlib.Core.Path.{ap₂}
use mini_server.Bytes.{Bytes}
use mini_server.Connection.{
  Connection, file_size, has_write_data, append_write_data, set_mapped_write_data,
  consume_write_data,
}

abbrev pub file_bytes : Option Bytes → Bytes
file_bytes none = []
file_bytes (some bytes) = bytes

-- The header and then the file, each without the part that is sent.
unfoldable pub remaining : Connection → Bytes
remaining c = drop c.write_offset c.write_buf ++ drop c.file_offset (file_bytes c.mapped_file)

-- The offsets stay within what they index, and the file waits for the header.
pub record IsSending (c : Connection) : Type 0 where
  pub header_fits : c.write_offset ≤ length c.write_buf
  pub file_fits : c.file_offset ≤ file_size c.mapped_file
  pub in_order : (c.file_offset ≡ 0) ⊎ (c.write_offset ≡ length c.write_buf)

file_size-length : (f : Option Bytes) → file_size f ≡ length (file_bytes f)
file_size-length none = refl
file_size-length (some b) = refl

pub length-remaining :
    (c : Connection)
    → length (remaining c)
      ≡ (length c.write_buf - c.write_offset) + (file_size c.mapped_file - c.file_offset)
unfolding remaining
length-remaining c = omega (
  arith,
  length-append (drop c.write_offset c.write_buf) (drop c.file_offset (file_bytes c.mapped_file)),
  length-drop c.write_offset c.write_buf,
  length-drop c.file_offset (file_bytes c.mapped_file),
  file_size-length c.mapped_file,
)

-- Dropping from a concatenation.
drop-append : (n : ℕ) (xs ys : Bytes) → drop n (xs ++ ys) ≡ drop n xs ++ drop (n - length xs) ys
drop-append zero xs ys = ap (λ k. xs ++ drop k ys) {x = 0} (omega arith)
drop-append (suc n) [] ys = ap (λ k. drop k ys) {x = suc n} (omega arith)
drop-append (suc n) (x ∷ xs) ys =
    drop-append n xs ys
    ∙ ap (λ k. drop n xs ++ drop k ys)
        (let e : n - length xs ≡ suc n - suc (length xs) = omega arith in e)

-- A cut beyond the end leaves nothing.
drop-min : (m k : ℕ) (s : Bytes) → length s ≤ k → drop (min m k) s ≡ drop m s
drop-min m k s h = elim (Bool-cases (leb m k)) [
  | inl small ↦ ap (λ i. drop i s) (let l = leb→le m k small in omega arith)
  | inr big ↦
      let l = not-leb→lt m k big in
      drop-all (min m k) s (omega arith) ∙ sym (drop-all m s (omega arith))
]

consume-IsSending : (n : ℕ) (c : Connection) → IsSending c → IsSending (consume_write_data n c)
unfolding consume_write_data
consume-IsSending n c s = omega arith

-- When the kernel has taken `n` bytes, `consumeWriteData n` leaves exactly the bytes behind them to be
-- sent, through the header and into the file, and the offsets stay in range and in order.
pub consume_write_data-remaining :
    (n : ℕ) (c : Connection)
    → IsSending c
    → (remaining (consume_write_data n c) ≡ drop n (remaining c))
      × IsSending (consume_write_data n c)
unfolding remaining consume_write_data
consume_write_data-remaining n c s = (
  ap₂ ◌++◌ header file ∙ sym (drop-append n (drop c.write_offset c.write_buf) _),
  consume-IsSending n c s,
)
  where
    left : ℕ
    left = length c.write_buf - c.write_offset

    header :
        drop (c.write_offset + min n left) c.write_buf ≡ drop n (drop c.write_offset c.write_buf)
    header =
        sym (drop-drop c.write_offset (min n left) c.write_buf)
        ∙ drop-min n left (drop c.write_offset c.write_buf)
            (omega (arith, length-drop c.write_offset c.write_buf))

    rest : ℕ
    rest = n - length (drop c.write_offset c.write_buf)

    rest_is : n - min n left ≡ rest
    rest_is = omega (arith, length-drop c.write_offset c.write_buf)

    file :
        drop
          (c.file_offset + min (n - min n left) (file_size c.mapped_file - c.file_offset))
          (file_bytes c.mapped_file)
        ≡ drop rest (drop c.file_offset (file_bytes c.mapped_file))
    file =
        sym (drop-drop c.file_offset _ (file_bytes c.mapped_file))
        ∙ drop-min (n - min n left) _ (drop c.file_offset (file_bytes c.mapped_file)) (
            omega (
              arith,
              length-drop c.file_offset (file_bytes c.mapped_file),
              file_size-length c.mapped_file,
            ))
        ∙ ap (λ k. drop k (drop c.file_offset (file_bytes c.mapped_file))) rest_is

-- There is something to write exactly while a byte is left.
pub has_write_data_iff : (c : Connection) → (has_write_data c ≡ true) ↔ (0 < length (remaining c))
unfolding has_write_data
has_write_data_iff c = ground (arith, length-remaining c)

-- A fresh response: everything is to be sent, and `writeReady` says whether that is anything.
pub append_write_data-remaining :
    (now : ℕ) (bytes : Bytes) (c : Connection)
    → (remaining (append_write_data now bytes c) ≡ bytes)
      × IsSending (append_write_data now bytes c)
      × ((append_write_data now bytes c).write_ready
          ≡ has_write_data (append_write_data now bytes c))
unfolding remaining append_write_data has_write_data
append_write_data-remaining now bytes c = (append-nil bytes, omega arith, ground arith)

-- A response with a mapped file: the header and then the file are to be sent, the offsets start in
-- range, and `writeReady` says whether that is anything.
pub set_mapped_write_data-remaining :
    (now : ℕ) (header file : Bytes) (c : Connection)
    → (remaining (set_mapped_write_data now header file c) ≡ header ++ file)
      × IsSending (set_mapped_write_data now header file c)
      × ((set_mapped_write_data now header file c).write_ready
          ≡ has_write_data (set_mapped_write_data now header file c))
unfolding remaining set_mapped_write_data has_write_data
set_mapped_write_data-remaining now header file c = (refl, omega arith, refl)
