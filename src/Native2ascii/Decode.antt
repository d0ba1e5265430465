-- ===== src/Native2ascii/Decode.antt =====
-- Texts in UTF-8, and the loop of `convert_file` over one of them (src/native2ascii.c).
use gantt.Prelude.{
  ℕ, zero, suc, ◌+◌, ◌-◌, ◌/◌, ◌%◌, ◌≤◌, ◌<◌, ◌≡◌, refl, ◌∙◌, ap, Option, some, List, [], ◌∷◌, ◌++◌,
  ltb, drop, length, arith, if◌then◌else◌, length-append, Bool-cases, inl, inr,
}
use mathlib.Core.List.{append_assoc}
use gantt.Text.{Bytes}
use gantt.Native2ascii.{
  codepoint, is_continuation, two_bytes, three_bytes, four_bytes, utf8_to_codepoint,
  write_codepoint, write_out, convert_loop,
}

-- UTF-8, as the standard has it.
unfoldable pub utf8 : ℕ → Bytes
utf8 cp =
    if ltb cp 0x80
    then cp ∷ []
    else if ltb cp 0x800
    then (192 + cp / 64) ∷ (128 + cp % 64) ∷ []
    else if ltb cp 0x10000
    then (224 + cp / 4096) ∷ (128 + cp / 64 % 64) ∷ (128 + cp % 64) ∷ []
    else (240 + cp / 262144) ∷ (128 + cp / 4096 % 64) ∷ (128 + cp / 64 % 64) ∷ (128 + cp % 64) ∷ []

decode-utf8 :
    (cp : ℕ) (rest : Bytes)
    → cp < 0x110000
    → utf8_to_codepoint (utf8 cp ++ rest) ≡ codepoint (length (utf8 cp)) cp
unfolding utf8 utf8_to_codepoint two_bytes three_bytes four_bytes is_continuation
decode-utf8 cp rest h = ground arith

-- A text of code points, and what is written for it.
unfoldable pub utf8_text : List ℕ → Bytes
utf8_text [] = []
utf8_text (cp ∷ cps) = utf8 cp ++ utf8_text cps

unfoldable pub written : List ℕ → Bytes
written [] = []
written (cp ∷ cps) = write_codepoint cp ++ written cps

abbrev pub AreCodepoints : List ℕ → Type 0
AreCodepoints [] = Unit
AreCodepoints (cp ∷ cps) = (cp < 0x110000) × AreCodepoints cps

drop-append : (s t : Bytes) → drop (length s) (s ++ t) ≡ t
drop-append [] t = refl
drop-append (c ∷ s) t = drop-append s t

-- The encoding of a code point is not empty.
utf8-cons : (cp : ℕ) → (b : ℕ) × (s : Bytes) × (utf8 cp ≡ b ∷ s)
unfolding utf8
utf8-cons cp = elim (Bool-cases (ltb cp 0x80)) [
  | inl e ↦ rw e (_, _, refl)
  | inr e ↦ elim (Bool-cases (ltb cp 0x800)) [
    | inl f ↦ rw (e, f) (_, _, refl)
    | inr f ↦ elim (Bool-cases (ltb cp 0x10000)) [
      | inl g ↦ rw (e, f, g) (_, _, refl)
      | inr g ↦ rw (e, f, g) (_, _, refl)
    ]
  ]
]

convert-step :
    (fuel left b : ℕ) (s rest : Bytes) (cp : ℕ)
    → utf8_to_codepoint (b ∷ s ++ rest) ≡ codepoint (length (b ∷ s)) cp
    → length (b ∷ s) ≤ suc left
    → convert_loop (suc fuel) (b ∷ s ++ rest) (suc left)
      ≡ write_out (write_codepoint cp) (convert_loop fuel rest (suc left - length (b ∷ s)))
unfolding convert_loop
convert-step fuel left b s rest cp e h = rw (e, convert_loop) (rw (drop-append s rest) refl)

convert-utf8 :
    (fuel left cp : ℕ) (rest : Bytes)
    → cp < 0x110000
    → length (utf8 cp) ≤ suc left
    → convert_loop (suc fuel) (utf8 cp ++ rest) (suc left)
      ≡ write_out (write_codepoint cp) (convert_loop fuel rest (suc left - length (utf8 cp)))
convert-utf8 fuel left cp rest c h =
    let (b, s, u) = utf8-cons cp in
    rw u (convert-step fuel left b s rest cp (rw u at (decode-utf8 cp rest c)) (rw u at h))

utf8-positive : (cp : ℕ) → 0 < length (utf8 cp)
utf8-positive cp = let (b, s, u) = utf8-cons cp in omega (arith, ap length u)

write_out-some :
    (bytes : Bytes) (o : Option Bytes) (rest : Bytes)
    → o ≡ some rest
    → write_out bytes o ≡ some (bytes ++ rest)
unfolding write_out
write_out-some bytes o rest e = rw e refl

pub convert_loop-utf8 :
    (cps : List ℕ) (fuel : ℕ) (junk : Bytes) (left : ℕ)
    → AreCodepoints cps
    → left ≡ length (utf8_text cps)
    → left ≤ fuel
    → convert_loop fuel (utf8_text cps ++ junk) left ≡ some (written cps)
unfolding utf8_text written
convert_loop-utf8 [] zero junk left c e h = unfold convert_loop in refl
convert_loop-utf8 [] (suc fuel) junk zero c e h = unfold convert_loop in refl
convert_loop-utf8 [] (suc fuel) junk (suc left) c e h = absurd (omega arith)
convert_loop-utf8 (cp ∷ cps) fuel junk zero c e h =
    absurd (omega (arith, length-append (utf8 cp) (utf8_text cps), utf8-positive cp))
convert_loop-utf8 (cp ∷ cps) zero junk (suc left) c e h = absurd (omega arith)
convert_loop-utf8 (cp ∷ cps) (suc fuel) junk (suc left) c e h =
    let whole = length-append (utf8 cp) (utf8_text cps) in
    let positive = utf8-positive cp in
    rw (append_assoc (utf8 cp) (utf8_text cps) junk) (
      convert-utf8 fuel left cp (utf8_text cps ++ junk) c.0 (omega arith)
      ∙ write_out-some (write_codepoint cp) _ (written cps) (
          convert_loop-utf8 cps fuel junk (suc left - length (utf8 cp)) c.1 (omega arith)
            (omega arith)))
