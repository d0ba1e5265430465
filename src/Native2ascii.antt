-- ===== src/Native2ascii.antt =====
-- The conversion of src/native2ascii.c: `utf8_to_codepoint` and the loop of `convert_file`. Bit fields
-- are written as quotients and remainders, and joining fields that do not overlap as sums.
pub mod Decode
pub mod RoundTrip
use gantt.Prelude.{
  ℕ, zero, suc, ◌+◌, ◌-◌, ◌*◌, ◌/◌, ◌%◌, Bool, true, false, ◌&&◌, not, Option, none, some, List, [],
  ◌∷◌, ◌++◌, ltb, leb, ◌==◌, drop, length, take, if◌then◌else◌,
}
use gantt.Text.{Bytes, codes}

-- `fault` is a read behind the end of the buffer.
pub data Decoded : Type 0 where
  codepoint : ℕ → ℕ → Decoded
  invalid : Decoded
  fault : Decoded

-- `(s[k] & 0xC0) == 0x80`
unfoldable pub is_continuation : ℕ → Bool
is_continuation b = b / 64 == 2

-- What follows a first byte that announces one, two or three more; a byte that is no continuation
-- ends the reading.
unfoldable pub two_bytes : ℕ → Bytes → Decoded
two_bytes b0 [] = fault
two_bytes b0 (b1 ∷ s) = if is_continuation b1 then codepoint 2 (b0 % 32 * 64 + b1 % 64) else invalid

unfoldable pub three_bytes : ℕ → Bytes → Decoded
three_bytes b0 [] = fault
three_bytes b0 (b1 ∷ []) = if is_continuation b1 then fault else invalid
three_bytes b0 (b1 ∷ b2 ∷ s) =
    if is_continuation b1 && is_continuation b2
    then codepoint 3 (b0 % 16 * 4096 + b1 % 64 * 64 + b2 % 64)
    else invalid

unfoldable pub four_bytes : ℕ → Bytes → Decoded
four_bytes b0 [] = fault
four_bytes b0 (b1 ∷ []) = if is_continuation b1 then fault else invalid
four_bytes b0 (b1 ∷ b2 ∷ []) = if is_continuation b1 && is_continuation b2 then fault else invalid
four_bytes b0 (b1 ∷ b2 ∷ b3 ∷ s) =
    if is_continuation b1 && is_continuation b2 && is_continuation b3
    then codepoint 4 (b0 % 8 * 262144 + b1 % 64 * 4096 + b2 % 64 * 64 + b3 % 64)
    else invalid

-- `utf8_to_codepoint`, of the rest of the buffer.
unfoldable pub utf8_to_codepoint : Bytes → Decoded
utf8_to_codepoint [] = fault
utf8_to_codepoint (b0 ∷ s) =
    if ltb b0 0x80
    then codepoint 1 b0
    else if b0 / 32 == 6
    then two_bytes b0 s
    else if b0 / 16 == 14
    then three_bytes b0 s
    else if b0 / 8 == 30
    then four_bytes b0 s
    else invalid

unfoldable pub hex_digit : ℕ → ℕ
hex_digit d = if ltb d 10 then b'0' + d else b'A' + (d - 10)

-- "\\u%04X", of a number below 65536.
unfoldable pub unicode_escape : ℕ → Bytes
unicode_escape n =
    b'\\'
    ∷ b'u'
    ∷ hex_digit (n / 4096 % 16)
    ∷ hex_digit (n / 256 % 16)
    ∷ hex_digit (n / 16 % 16)
    ∷ hex_digit (n % 16)
    ∷ []

unfoldable pub high_surrogate : ℕ → ℕ
high_surrogate cp = 0xD800 + (cp - 0x10000) / 1024

unfoldable pub low_surrogate : ℕ → ℕ
low_surrogate cp = 0xDC00 + (cp - 0x10000) % 1024

unfoldable pub write_codepoint : ℕ → Bytes
write_codepoint cp =
    if ltb cp 0x80
    then cp ∷ []
    else if leb cp 0xFFFF
    then unicode_escape cp
    else unicode_escape (high_surrogate cp) ++ unicode_escape (low_surrogate cp)

-- What was written before, in front of the rest; `none` is a read behind the end of the buffer.
unfoldable pub write_out : Bytes → Option Bytes → Option Bytes
write_out bytes none = none
write_out bytes (some rest) = some (bytes ++ rest)

unfoldable pub write_chunk : Option Bytes → Option Bytes → Option Bytes
write_chunk none rest = none
write_chunk (some out) rest = write_out out rest

-- The inner loop, over what is left of the buffer and of `bytes_read`. Each round takes a byte at
-- least, so `bytes_read` is fuel enough.
unfoldable pub convert_loop : ℕ → Bytes → ℕ → Option Bytes
convert_loop zero s left = some []
convert_loop (suc fuel) s zero = some []
convert_loop (suc fuel) [] (suc left) = none
convert_loop (suc fuel) (b ∷ s) (suc left) = elim (utf8_to_codepoint (b ∷ s)) [
  | fault ↦ none
  | invalid ↦ write_out (b ∷ []) (convert_loop fuel s left)
  | codepoint len cp ↦
      write_out (write_codepoint cp) (convert_loop fuel (drop len (b ∷ s)) (suc left - len))
]

abbrev pub buffer_size : ℕ
buffer_size = 4096

-- `fread` overwrites the beginning of the buffer.
unfoldable pub load : Bytes → Bytes → Bytes
load buffer bytes = bytes ++ drop (length bytes) buffer

-- The outer loop, over what is left of the file. Each round reads a byte at least, so the length of
-- the file is fuel enough.
unfoldable pub convert_chunks : ℕ → Bytes → Bytes → Option Bytes
convert_chunks zero buffer file = some []
convert_chunks (suc fuel) buffer [] = some []
convert_chunks (suc fuel) buffer (b ∷ file) =
    let chunk = take buffer_size (b ∷ file) in
    let loaded = load buffer chunk in
    write_chunk (convert_loop (length chunk) loaded (length chunk))
      (convert_chunks fuel loaded (drop buffer_size (b ∷ file)))

-- `convert_file` from the opened source on; `buffer` is what the buffer holds at first.
unfoldable pub convert_file : Bytes → Bytes → Option Bytes
convert_file buffer file = convert_chunks (length file) buffer file
