-- ===== src/Native2ascii/RoundTrip.antt =====
-- What `convert_file` writes, as a reader of the escapes has it (src/native2ascii.c).
use gantt.Prelude.{
  ℕ, zero, suc, ◌+◌, ◌-◌, ◌*◌, ◌/◌, ◌%◌, ◌≤◌, ◌<◌, ◌≡◌, ◌≢◌, refl, ◌∙◌, ap, true, false, Option,
  none, some, List, [], ◌∷◌, ◌++◌, ltb, leb, ◌==◌, drop, length, arith, if◌then◌else◌, Bool-cases,
  inl, inr, take, ◌&&◌, ==_iff, ltb→lt,
}
use mathlib.Core.List.{append_assoc, append-nil}
use gantt.Text.{Bytes}
use gantt.Native2ascii.{
  two_bytes, three_bytes, four_bytes, utf8_to_codepoint, hex_digit, unicode_escape, high_surrogate,
  low_surrogate, write_codepoint, write_out, write_chunk, convert_loop, load, convert_chunks,
  convert_file, buffer_size,
}
use gantt.Native2ascii.Decode.{utf8_text, written, AreCodepoints, convert_loop-utf8}

hex_value : ℕ → ℕ
hex_value c = if ltb c b'A' then c - b'0' else c - b'A' + 10

hex_value-hex_digit : (d : ℕ) → d < 16 → hex_value (hex_digit d) ≡ d
unfolding hex_value hex_digit
hex_value-hex_digit d h = ground arith

four_digits : ℕ → ℕ → ℕ → ℕ → ℕ
four_digits a b c d = hex_value a * 4096 + hex_value b * 256 + hex_value c * 16 + hex_value d

four_digits-escape :
    (n : ℕ)
    → n < 65536
    → four_digits
        (hex_digit (n / 4096 % 16))
        (hex_digit (n / 256 % 16))
        (hex_digit (n / 16 % 16))
        (hex_digit (n % 16))
      ≡ n
unfolding four_digits
four_digits-escape n h =
    let a = hex_value-hex_digit (n / 4096 % 16) (omega arith) in
    let b = hex_value-hex_digit (n / 256 % 16) (omega arith) in
    let c = hex_value-hex_digit (n / 16 % 16) (omega arith) in
    let d = hex_value-hex_digit (n % 16) (omega arith) in omega arith

-- The UTF-16 code units that a reader of Java properties or sources takes from the written text.
pub read_units : Bytes → List ℕ
read_units [] = []
read_units (x ∷ []) = x ∷ []
read_units (x ∷ y ∷ []) = x ∷ y ∷ []
read_units (x ∷ y ∷ a ∷ []) = x ∷ y ∷ a ∷ []
read_units (x ∷ y ∷ a ∷ b ∷ []) = x ∷ y ∷ a ∷ b ∷ []
read_units (x ∷ y ∷ a ∷ b ∷ c ∷ []) = x ∷ y ∷ a ∷ b ∷ c ∷ []
read_units (x ∷ y ∷ a ∷ b ∷ c ∷ d ∷ s) = elim (x == b'\\' && y == b'u') [
  | true ↦ four_digits a b c d ∷ read_units s
  | false ↦ x ∷ read_units (y ∷ a ∷ b ∷ c ∷ d ∷ s)
]

-- UTF-16, as the standard has it.
pub utf16 : ℕ → List ℕ
utf16 cp =
    if ltb cp 0x10000
    then cp ∷ []
    else (0xD800 + (cp - 0x10000) / 1024) ∷ (0xDC00 + (cp - 0x10000) % 1024) ∷ []

pub utf16_text : List ℕ → List ℕ
utf16_text [] = []
utf16_text (cp ∷ cps) = utf16 cp ++ utf16_text cps

-- Characters that stand for themselves, and not for the beginning of an escape.
abbrev pub NoBackslash : List ℕ → Type 0
NoBackslash [] = Unit
NoBackslash (cp ∷ cps) = (cp ≢ b'\\') × NoBackslash cps

read-escape :
    (n : ℕ) (s : Bytes) → n < 65536 → read_units (unicode_escape n ++ s) ≡ n ∷ read_units s
unfolding read_units unicode_escape
read-escape n s h = ap (λ k. k ∷ read_units s) (four_digits-escape n h)

read-plain : (x : ℕ) (s : Bytes) → x ≢ b'\\' → read_units (x ∷ s) ≡ x ∷ read_units s
unfolding read_units
read-plain x [] h = refl
read-plain x (y ∷ []) h = refl
read-plain x (y ∷ a ∷ []) h = refl
read-plain x (y ∷ a ∷ b ∷ []) h = refl
read-plain x (y ∷ a ∷ b ∷ c ∷ []) h = refl
read-plain x (y ∷ a ∷ b ∷ c ∷ d ∷ s) h = elim (Bool-cases (x == b'\\')) [
  | inl e ↦ absurd (h ((==_iff x b'\\').0 e))
  | inr e ↦ rw (e, read_units) refl
]

read-write_codepoint :
    (cp : ℕ) (s : Bytes)
    → cp < 0x110000
    → cp ≢ b'\\'
    → read_units (write_codepoint cp ++ s) ≡ utf16 cp ++ read_units s
unfolding write_codepoint utf16 high_surrogate low_surrogate
read-write_codepoint cp s h n = elim (Bool-cases (ltb cp 0x80)) [
  | inl e ↦ rw e (read-plain cp s n ∙ ground arith)
  | inr e ↦ elim (Bool-cases (leb cp 0xFFFF)) [
    | inl f ↦ rw (e, f) (read-escape cp s (ground arith) ∙ ground arith)
    | inr f ↦
        rw
          (
            e,
            f,
            append_assoc (unicode_escape (high_surrogate cp)) (unicode_escape (low_surrogate cp)) s,
          )
          (read-escape (0xD800 + (cp - 0x10000) / 1024) _ (ground arith)
            ∙ ap (λ t. (0xD800 + (cp - 0x10000) / 1024) ∷ t)
                (read-escape (0xDC00 + (cp - 0x10000) % 1024) s (ground arith))
            ∙ ground arith)
  ]
]

read-written :
    (cps : List ℕ) → AreCodepoints cps → NoBackslash cps → read_units (written cps) ≡ utf16_text cps
unfolding written utf16_text
read-written [] c n = unfold read_units in refl
read-written (cp ∷ cps) c n =
    read-write_codepoint cp (written cps) c.0 n.0
    ∙ ap (λ t. utf16 cp ++ t) (read-written cps c.1 n.1)

-- All bytes are ASCII.
abbrev pub IsAscii : Bytes → Type 0
IsAscii [] = Unit
IsAscii (b ∷ s) = (b < 128) × IsAscii s

IsAscii-append : (s t : Bytes) → IsAscii s → IsAscii t → IsAscii (s ++ t)
IsAscii-append [] t p q = q
IsAscii-append (b ∷ s) t p q = (p.0, IsAscii-append s t p.1 q)

hex_digit-lt : (d : ℕ) → d < 16 → hex_digit d < 128
unfolding hex_digit
hex_digit-lt d h = ground arith

escape-IsAscii : (n : ℕ) → IsAscii (unicode_escape n)
unfolding unicode_escape
escape-IsAscii n = (
  omega arith,
  (
    omega arith,
    (
      hex_digit-lt _ (omega arith),
      (
        hex_digit-lt _ (omega arith),
        (hex_digit-lt _ (omega arith), (hex_digit-lt _ (omega arith), tt)),
      ),
    ),
  ),
)

write_codepoint-IsAscii : (cp : ℕ) → IsAscii (write_codepoint cp)
unfolding write_codepoint
write_codepoint-IsAscii cp = elim (Bool-cases (ltb cp 0x80)) [
  | inl e ↦ rw e (ltb→lt cp 0x80 e, tt)
  | inr e ↦ elim (Bool-cases (leb cp 0xFFFF)) [
    | inl f ↦ rw (e, f) (escape-IsAscii cp)
    | inr f ↦
        rw (e, f)
          (IsAscii-append (unicode_escape (high_surrogate cp)) _ (escape-IsAscii _)
            (escape-IsAscii _))
  ]
]

written-IsAscii : (cps : List ℕ) → IsAscii (written cps)
unfolding written
written-IsAscii [] = tt
written-IsAscii (cp ∷ cps) =
    IsAscii-append (write_codepoint cp) (written cps) (write_codepoint-IsAscii cp)
      (written-IsAscii cps)

take-all : (n : ℕ) (s : Bytes) → length s ≤ n → take n s ≡ s
take-all zero [] h = refl
take-all (suc n) [] h = refl
take-all zero (c ∷ s) h = absurd (omega arith)
take-all (suc n) (c ∷ s) h = ap (λ t. c ∷ t) (take-all n s (omega arith))

drop-all : (n : ℕ) (s : Bytes) → length s ≤ n → drop n s ≡ []
drop-all zero [] h = refl
drop-all (suc n) [] h = refl
drop-all zero (c ∷ s) h = absurd (omega arith)
drop-all (suc n) (c ∷ s) h = drop-all n s (omega arith)

chunk-last :
    (o : Option Bytes) (out : Bytes) (fuel : ℕ) (buffer : Bytes)
    → o ≡ some out
    → write_chunk o (convert_chunks fuel buffer []) ≡ some out
unfolding write_chunk write_out convert_chunks
chunk-last o out zero buffer e = rw (e, append-nil out) refl
chunk-last o out (suc fuel) buffer e = rw (e, append-nil out) refl

convert_chunks-one :
    (fuel : ℕ) (buffer file out : Bytes)
    → length file ≤ buffer_size
    → length file ≤ fuel
    → convert_loop (length file) (load buffer file) (length file) ≡ some out
    → convert_chunks fuel buffer file ≡ some out
unfolding convert_chunks
convert_chunks-one zero buffer [] out h f e = unfold convert_loop in e
convert_chunks-one (suc fuel) buffer [] out h f e = unfold convert_loop in e
convert_chunks-one zero buffer (b ∷ file) out h f e = absurd (omega arith)
convert_chunks-one (suc fuel) buffer (b ∷ file) out h f e =
    rw (take-all 4095 file (omega arith), drop-all 4095 file (omega arith))
      (chunk-last _ out fuel (load buffer (b ∷ file)) e)

-- A file of at most 4096 bytes of UTF-8 without a backslash is converted to ASCII only, and a reader
-- of Java's escapes takes from the result the UTF-16 of the file's characters.
pub convert_file-utf8 :
    (cps : List ℕ) (buffer : Bytes)
    → AreCodepoints cps
    → NoBackslash cps
    → length (utf8_text cps) ≤ buffer_size
    → (out : Bytes) × (convert_file buffer (utf8_text cps) ≡ some out)
      × IsAscii out
      × (read_units out ≡ utf16_text cps)
unfolding convert_file load
convert_file-utf8 cps buffer c n h = (
  written cps,
  convert_chunks-one (length (utf8_text cps)) buffer (utf8_text cps) (written cps) h (omega arith) (
      convert_loop-utf8 cps (length (utf8_text cps)) _ (length (utf8_text cps)) c refl
        (omega arith)),
  written-IsAscii cps,
  read-written cps c n,
)

-- A file that has more than the buffer holds, with the first byte of a longer character at the end
-- of the first block: the conversion reads behind the end of the buffer.
pub convert_loop-boundary :
    (fuel b : ℕ) → 192 ≤ b → b < 248 → convert_loop (suc fuel) (b ∷ []) 1 ≡ none
unfolding convert_loop utf8_to_codepoint two_bytes three_bytes four_bytes
convert_loop-boundary fuel b h k = ground arith
