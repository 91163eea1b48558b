-- ===== src/Connection.antt =====
-- connection.h and connection.cpp: one client's read and write buffers and flags.
-- The mutex is left out: every call below runs with it held. `std::chrono::steady_clock::now()` is
-- an argument. A mapped file never changes after it is opened, so the shared pointer is its content.
pub mod ContentLength
pub mod Framing
pub mod Sending
mod Tests
use mini_server.Prelude.{
  ℕ, ◌+◌, ◌-◌, ◌%◌, ◌^◌, min, Bool, true, false, ◌||◌, Option, none, some, [], ◌∷◌, ◌++◌, drop,
  if◌then◌else◌, leb, length, ltb, ◌==◌,
}
use mini_server.Bytes.{
  Bytes, codes, find, substr, take_while, drop_while, is_digit, to_lower, decimal_from,
}

abbrev pub size_mod : ℕ
size_mod = 2 ^ 64

pub record Connection : Type 0 where
  pub fd : ℕ
  pub peer_ip : Bytes
  pub read_buf : Bytes
  pub write_buf : Bytes
  pub mapped_file : Option Bytes
  pub write_offset : ℕ
  pub file_offset : ℕ
  pub write_ready : Bool
  pub close_after_write : Bool
  pub processing : Bool
  pub closed : Bool
  pub last_active : ℕ

unfoldable pub connection : ℕ → Bytes → ℕ → Connection
connection fd peer_ip now = record {
  fd = fd;
  peer_ip = peer_ip;
  read_buf = [];
  write_buf = [];
  mapped_file = none;
  write_offset = 0;
  file_offset = 0;
  write_ready = false;
  close_after_write = false;
  processing = false;
  closed = false;
  last_active = now;
}

abbrev touch : ℕ → Connection → Connection
touch now c = record c { last_active = now }

unfoldable idle_for_at_least : ℕ → ℕ → Connection → Bool
idle_for_at_least now timeout c = leb timeout (now - c.last_active)

unfoldable pub append_read_data : ℕ → Bytes → Connection → Connection
append_read_data now bytes c = touch now (record c { read_buf = c.read_buf ++ bytes })

abbrev pub set_write_ready : Bool → Connection → Connection
set_write_ready value c = record c { write_ready = value }

abbrev pub set_close_after_write : Bool → Connection → Connection
set_close_after_write value c = record c { close_after_write = value }

abbrev pub set_processing : Bool → Connection → Connection
set_processing value c = record c { processing = value }

abbrev pub mark_closed : Connection → Connection
mark_closed c = record c { closed = true }

abbrev pub has_pending_read : Connection → Bool
has_pending_read c = elim c.read_buf [ [] ↦ false | _ ↦ true ]

abbrev pub content_length_key : Bytes
content_length_key = codes "content-length:"

abbrev pub is_blank : ℕ → Bool
is_blank c = c == 32 || c == 9

-- std::stoul of a string of digits, and what the handler makes of its exceptions: no digit is
-- `invalid_argument`, a value beyond `unsigned long` is `out_of_range`.
unfoldable pub stoul_or_zero : Bytes → ℕ
stoul_or_zero [] = 0
stoul_or_zero (d ∷ ds) =
    let value = decimal_from 0 (d ∷ ds) in if ltb value size_mod then value else 0

-- The digits behind the key; an empty run gives 0 by the same function.
abbrev pub content_length_at : Bytes → ℕ → ℕ
content_length_at lowered pos =
    stoul_or_zero
      (take_while is_digit (drop_while is_blank (drop (pos + length content_length_key) lowered)))

unfoldable pub content_length_in : Bytes → ℕ
unfolding stoul_or_zero
content_length_in lowered = elim (find content_length_key lowered) [
  | none ↦ 0
  | some pos ↦ content_length_at lowered pos
]

unfoldable pub parse_content_length : Bytes → ℕ
unfolding content_length_in to_lower
parse_content_length headers_text = content_length_in (to_lower headers_text)

abbrev pub header_end_mark : Bytes
header_end_mark = 13 ∷ 10 ∷ 13 ∷ 10 ∷ []

-- The length of the request that starts the buffer, its head `headers_len` bytes long; the sum wraps.
unfoldable pub total_len : Bytes → ℕ → ℕ
total_len buf headers_len =
    (headers_len + parse_content_length (substr buf 0 headers_len)) % size_mod

-- `none` is the result `false`, which leaves `rawRequest` alone; `some` is `true` with the request.
unfoldable pub extract_at : Connection → ℕ → Connection × Option Bytes
extract_at c header_end =
    let total = total_len c.read_buf (header_end + 4) in
    if ltb (length c.read_buf) total
    then (c, none)
    else (record c { read_buf = drop total c.read_buf }, some (substr c.read_buf 0 total))

unfoldable pub extract_one_request : Connection → Connection × Option Bytes
unfolding extract_at
extract_one_request c = elim (find header_end_mark c.read_buf) [
  | none ↦ (c, none)
  | some e ↦ extract_at c e
]

abbrev pub file_size : Option Bytes → ℕ
file_size none = 0
file_size (some bytes) = length bytes

-- `mappedFile_ && fileOffset_ < mappedFile_->size()`: an absent file counts as one of size 0.
unfoldable pub has_write_data : Connection → Bool
has_write_data c =
    ltb c.write_offset (length c.write_buf) || ltb c.file_offset (file_size c.mapped_file)

unfoldable pub append_write_data : ℕ → Bytes → Connection → Connection
append_write_data now bytes c = touch now (record c {
  write_buf = bytes;
  write_offset = 0;
  file_offset = 0;
  mapped_file = none;
  write_ready = ltb 0 (length bytes);
})

unfoldable pub set_mapped_write_data : ℕ → Bytes → Bytes → Connection → Connection
unfolding has_write_data
set_mapped_write_data now header file c =
    let loaded : Connection = record c {
      write_buf = header;
      write_offset = 0;
      file_offset = 0;
      mapped_file = some file;
    } in
    touch now (record loaded { write_ready = has_write_data loaded })

-- The subtractions do not wrap while the offsets stay within the two sizes.
unfoldable pub consume_write_data : ℕ → Connection → Connection
consume_write_data bytes c =
    let header_consumed = min bytes (length c.write_buf - c.write_offset) in
    let left = bytes - header_consumed in
    record c {
      write_offset = c.write_offset + header_consumed;
      file_offset = c.file_offset + min left (file_size c.mapped_file - c.file_offset);
    }

unfoldable pub clear_write_data : Connection → Connection
clear_write_data c = record c {
  write_buf = [];
  mapped_file = none;
  write_offset = 0;
  file_offset = 0;
}
