-- ===== src/HttpServer/Sending.antt =====
-- The loop of `HttpServer::handleWrite`, and the bytes that it hands to the kernel.
use mathlib.Core.List.{append-nil, append_assoc}
use mini_server.Prelude.{
  ℕ, zero, suc, ◌+◌, ◌<◌, ◌≡◌, refl, sym, ap, ◌∙◌, ◌⊎◌, inl, inr, true, false, Option, none, some,
  List, [], ◌∷◌, ◌++◌, arith, Bool-cases, drop, drop-all, length, length-drop, ltb, ltb→lt, ne→==,
  not-ltb→le, take, take-append-drop,
}
use mini_server.Bytes.{Bytes}
use mini_server.Connection.{Connection, has_write_data, consume_write_data}
use mini_server.Connection.Sending.{
  remaining, IsSending, length-remaining, consume_write_data-remaining, has_write_data_iff,
  file_bytes,
}
use mini_server.HttpServer.Handlers.{
  WriteAnswer, returned, would_block, write_failed, WriteEnd, drained, waits, broken, Written, iov,
  header_part, file_part, concat, sent_first, write_loop, write_fuel, written, is_done,
}

header_part_lem :
    (c : Connection) (rest : List Bytes)
    → concat (header_part c ++ rest) ≡ drop c.write_offset c.write_buf ++ concat rest
header_part_lem c rest = elim (Bool-cases (ltb c.write_offset (length c.write_buf))) [
  | inl more ↦ rw more refl
  | inr spent ↦ rw (spent, drop-all c.write_offset c.write_buf (not-ltb→le _ _ spent)) refl
]

file_part_lem :
    (f : Option Bytes) (offset : ℕ) → concat (file_part f offset) ≡ drop offset (file_bytes f)
file_part_lem none offset = sym (drop-all offset [] (omega arith))
file_part_lem (some f) offset = elim (Bool-cases (ltb offset (length f))) [
  | inl more ↦ rw more (append-nil (drop offset f))
  | inr spent ↦ rw (spent, drop-all offset f (not-ltb→le _ _ spent)) refl
]

-- What is handed to `writev` is what is left to send.
concat-iov : (c : Connection) → concat (iov c) ≡ remaining c
unfolding iov remaining
concat-iov c =
    header_part_lem c (file_part c.mapped_file c.file_offset)
    ∙ ap (◌++◌ (drop c.write_offset c.write_buf)) (file_part_lem c.mapped_file c.file_offset)

-- How a run `w` of the loop on `c` may end.
pub record IsWritten (c : Connection) (w : Written) : Type 0 where
  pub in_order : w.bytes ++ remaining w.conn ≡ remaining c
  pub sending : IsSending w.conn
  pub same_closed : w.conn.closed ≡ c.closed
  pub same_processing : w.conn.processing ≡ c.processing
  pub same_close_after : w.conn.close_after_write ≡ c.close_after_write
  pub same_read : w.conn.read_buf ≡ c.read_buf
  pub all_sent : c.closed ≡ false → w.result ≡ drained → remaining w.conn ≡ []

short_is_nil : (s : Bytes) → length s < 1 → s ≡ []
short_is_nil [] h = refl
short_is_nil (x ∷ s) h = absurd (omega arith)

nothing_left : (c : Connection) → has_write_data c ≡ false → remaining c ≡ []
nothing_left c h = short_is_nil (remaining c) (elim (Bool-cases (ltb 0 (length (remaining c)))) [
  | inl more ↦ cc (h, (has_write_data_iff c).1 (ltb→lt 0 (length (remaining c)) more))
  | inr none_left ↦ let b = not-ltb→le 0 (length (remaining c)) none_left in omega arith
])

-- The loop stops at once.
stops-IsWritten :
    (c : Connection) (e : WriteEnd)
    → IsSending c
    → (c.closed ≡ false → e ≡ drained → remaining c ≡ [])
    → IsWritten c (record { result = e; conn = c; bytes = [] })
stops-IsWritten c e s h = record {
  in_order = refl;
  sending = s;
  same_closed = refl;
  same_processing = refl;
  same_close_after = refl;
  same_read = refl;
  all_sent = h;
}

sent_first-IsWritten :
    (n : ℕ) (c : Connection) (w : Written)
    → IsSending c
    → IsWritten (consume_write_data n c) w
    → IsWritten c (sent_first (take n (concat (iov c))) w)
unfolding consume_write_data
sent_first-IsWritten n c w s h = record {
  in_order =
      append_assoc (take n (concat (iov c))) w.bytes (remaining w.conn)
      ∙ ap (◌++◌ (take n (concat (iov c)))) (h.in_order ∙ (consume_write_data-remaining n c s).0)
      ∙ rw (concat-iov c) (take-append-drop n (remaining c));
  sending = h.sending;
  same_closed = h.same_closed;
  same_processing = h.same_processing;
  same_close_after = h.same_close_after;
  same_read = h.same_read;
  all_sent = h.all_sent;
}

WriteAnswer-cases :
    (a : WriteAnswer)
    → (a ≡ returned 0)
      ⊎ (((n : ℕ) × (a ≡ returned (suc n))) ⊎ ((a ≡ would_block) ⊎ (a ≡ write_failed)))
WriteAnswer-cases (returned zero) = inl refl
WriteAnswer-cases (returned (suc n)) = inr (inl (n, refl))
WriteAnswer-cases would_block = inr (inr (inl refl))
WriteAnswer-cases write_failed = inr (inr (inr refl))

pub is_done-false : (c : Connection) → is_done c ≡ false → has_write_data c ≡ true
unfolding is_done
is_done-false c h = ground arith

is_done-true : (c : Connection) → is_done c ≡ true → c.closed ≡ false → has_write_data c ≡ false
unfolding is_done
is_done-true c h o = ground arith

pub shorter :
    (n fuel : ℕ) (c : Connection)
    → IsSending c
    → has_write_data c ≡ true
    → length (remaining c) < suc fuel
    → length (remaining (consume_write_data (suc n) c)) < fuel
shorter n fuel c s more h =
    let left = (has_write_data_iff c).0 more in
    omega (
      arith,
      ap length (consume_write_data-remaining (suc n) c s).0,
      length-drop (suc n) (remaining c),
    )

write_loop-IsWritten :
    (fuel : ℕ) (answers : ℕ → WriteAnswer) (k : ℕ) (c : Connection)
    → IsSending c
    → length (remaining c) < fuel
    → IsWritten c (write_loop fuel answers k c)
unfolding write_loop
write_loop-IsWritten zero answers k c s h = absurd (omega arith)
write_loop-IsWritten (suc fuel) answers k c s h = elim (Bool-cases (is_done c)) [
  | inl done ↦ rw done (stops-IsWritten c drained s λ o e. nothing_left c (is_done-true c done o))
  | inr more ↦ elim (WriteAnswer-cases (answers k)) [
    | inl zero_taken ↦ rw (more, zero_taken) (stops-IsWritten c broken s λ o e. cc e)
    | inr (inl (n, taken)) ↦
        rw (more, taken, ne→== (suc n) 0 (omega arith))
          (sent_first-IsWritten (suc n) c _ s (
            write_loop-IsWritten fuel answers (k + 1) (consume_write_data (suc n) c)
              (consume_write_data-remaining (suc n) c s).1
              (shorter n fuel c s (is_done-false c more) h)))
    | inr (inr (inl blocked)) ↦ rw (more, blocked) (stops-IsWritten c waits s λ o e. cc e)
    | inr (inr (inr failed)) ↦ rw (more, failed) (stops-IsWritten c broken s λ o e. cc e)
  ]
]

-- One run of the loop of `handleWrite`, whatever the kernel answers: the bytes it took and those left
-- to send are together what was left before, in order; nothing but the offsets changes; and if the loop
-- ends because all is written, nothing is left of an open connection's response.
pub written-IsWritten :
    (answers : ℕ → WriteAnswer) (c : Connection) → IsSending c → IsWritten c (written answers c)
unfolding written write_fuel
written-IsWritten answers c s =
    write_loop-IsWritten (write_fuel c) answers 0 c s (omega (arith, length-remaining c))
