-- ===== src/ConvertEol/Lines.antt =====
-- Texts as lines with their ends, and what `convert_eol` (src/fileops.c) makes of them.
use mathlib.Core.List.{append_assoc}
use gantt.Prelude.{◌≡◌, ◌≢◌, refl, ◌∙◌, sym, ap, true, false, List, [], ◌∷◌, ◌++◌, arith}
use gantt.Text.{Bytes, codes, streq}
use gantt.ConvertEol.{normalize_loop, write_eol, convert_eol}

pub data End : Type 0 where
  lf : End
  crlf : End
  cr : End

-- The mode that asks for an end, and the end.
pub mode_name : End → Bytes
mode_name lf = codes "lf"
mode_name crlf = codes "crlf"
mode_name cr = codes "cr"

unfoldable pub eol : End → Bytes
eol lf = 10 ∷ []
eol crlf = 13 ∷ 10 ∷ []
eol cr = 13 ∷ []

-- The lines of a text with their ends, and what stands behind the last end.
unfoldable pub written : List (Bytes × End) → Bytes → Bytes
written [] last = last
written ((line, e) ∷ lines) last = line ++ eol e ++ written lines last

-- The same lines, each with the same end.
pub rewritten : End → List (Bytes × End) → Bytes → Bytes
rewritten mode [] last = last
rewritten mode ((line, e) ∷ lines) last = line ++ eol mode ++ rewritten mode lines last

-- No zero, and no character of a line's end.
abbrev pub IsLine : Bytes → Type 0
IsLine [] = Unit
IsLine (c ∷ line) = (c ≢ 0) × (c ≢ 10) × (c ≢ 13) × IsLine line

-- A "\r" that ends a line is not followed by a "\n", with which it would be one end.
abbrev pub NoFeed : Bytes → Type 0
NoFeed [] = Unit
NoFeed (c ∷ text) = c ≢ 10

abbrev pub EndsHere : End → Bytes → Type 0
EndsHere lf text = Unit
EndsHere crlf text = Unit
EndsHere cr text = NoFeed text

abbrev pub AreLines : List (Bytes × End) → Bytes → Type 0
AreLines [] last = IsLine last
AreLines ((line, e) ∷ lines) last =
    IsLine line × EndsHere e (written lines last) × AreLines lines last

normalize_loop-line :
    (line text : Bytes)
    → IsLine line
    → normalize_loop false (line ++ text) ≡ line ++ normalize_loop false text
unfolding normalize_loop
normalize_loop-line [] text h = refl
normalize_loop-line (c ∷ line) text h =
    ground (arith, h.0, h.1, h.2, normalize_loop-line line text h.3)

normalize_loop-NoFeed :
    (text : Bytes) → NoFeed text → normalize_loop true text ≡ normalize_loop false text
unfolding normalize_loop
normalize_loop-NoFeed [] h = refl
normalize_loop-NoFeed (c ∷ text) h = ground (arith, h)

normalize_loop-eol :
    (e : End) (text : Bytes)
    → EndsHere e text
    → normalize_loop false (eol e ++ text) ≡ 10 ∷ normalize_loop false text
unfolding normalize_loop eol
normalize_loop-eol lf text h = ground arith
normalize_loop-eol crlf text h = ground arith
normalize_loop-eol cr text h = ground (arith, normalize_loop-NoFeed text h)

normalize_loop-last : (line : Bytes) → IsLine line → normalize_loop false line ≡ line
unfolding normalize_loop
normalize_loop-last [] h = refl
normalize_loop-last (c ∷ line) h = ground (arith, h.0, h.1, h.2, normalize_loop-last line h.3)

-- The line ends are normalized.
normalize_loop-written :
    (lines : List (Bytes × End)) (last : Bytes)
    → AreLines lines last
    → normalize_loop false (written lines last) ≡ rewritten lf lines last
unfolding written rewritten eol
normalize_loop-written [] last h = normalize_loop-last last h
normalize_loop-written ((line, e) ∷ lines) last h =
    ap (normalize_loop false) (append_assoc line (eol e) (written lines last))
    ∙ normalize_loop-line line (eol e ++ written lines last) h.0
    ∙ ap (λ t. line ++ t)
        (normalize_loop-eol e (written lines last) h.1
          ∙ ap (λ (t : Bytes). 10 ∷ t) (normalize_loop-written lines last h.2))
    ∙ sym (append_assoc line (10 ∷ []) (rewritten lf lines last))

write_eol-line :
    (end line text : Bytes)
    → IsLine line
    → write_eol end (line ++ text) ≡ line ++ write_eol end text
unfolding write_eol
write_eol-line end [] text h = refl
write_eol-line end (c ∷ line) text h = ground (arith, h.0, h.1, write_eol-line end line text h.3)

write_eol-last : (end line : Bytes) → IsLine line → write_eol end line ≡ line
unfolding write_eol
write_eol-last end [] h = refl
write_eol-last end (c ∷ line) h = ground (arith, h.0, h.1, write_eol-last end line h.3)

write_eol-feed : (end text : Bytes) → write_eol end (10 ∷ text) ≡ end ++ write_eol end text
unfolding write_eol
write_eol-feed end text = refl

write_eol-rewritten :
    (mode : End) (lines : List (Bytes × End)) (last : Bytes)
    → AreLines lines last
    → write_eol (eol mode) (rewritten lf lines last) ≡ rewritten mode lines last
unfolding rewritten eol
write_eol-rewritten mode [] last h = write_eol-last (eol mode) last h
write_eol-rewritten mode ((line, e) ∷ lines) last h =
    ap (write_eol (eol mode)) (append_assoc line (10 ∷ []) (rewritten lf lines last))
    ∙ write_eol-line (eol mode) line (10 ∷ rewritten lf lines last) h.0
    ∙ ap (λ t. line ++ t)
        (write_eol-feed (eol mode) (rewritten lf lines last)
          ∙ ap (λ t. eol mode ++ t) (write_eol-rewritten mode lines last h.2))
    ∙ sym (append_assoc line (eol mode) (rewritten mode lines last))

-- A text without zeros, whose lines end in "\n", "\r\n" or "\r" in any mixture, is converted by a mode
-- for one of these ends to the same lines, each with that end.
pub convert_eol-written :
    (mode : End) (lines : List (Bytes × End)) (last : Bytes)
    → AreLines lines last
    → convert_eol (written lines last) (mode_name mode) ≡ rewritten mode lines last
unfolding convert_eol streq mode_name eol
convert_eol-written lf lines last h = normalize_loop-written lines last h
convert_eol-written crlf lines last h =
    ap (write_eol (eol crlf)) (normalize_loop-written lines last h)
    ∙ write_eol-rewritten crlf lines last h
convert_eol-written cr lines last h =
    ap (write_eol (eol cr)) (normalize_loop-written lines last h)
    ∙ write_eol-rewritten cr lines last h
