-- ===== src/ConvertEol.antt =====
-- The line ends of a file that `concat` wrote: `convert_eol` of src/fileops.c. Opening and reading the
-- file are taken to succeed.
pub mod Lines
use gantt.Prelude.{
  ◌≡◌, ◌≢◌, refl, Bool, true, false, ◌||◌, ◌&&◌, [], ◌∷◌, ◌++◌, ◌==◌, arith, if◌then◌else◌,
}
use gantt.Text.{Bytes, codes, streq}

-- The first loop: "\r\n" and "\r" become "\n". `after_cr` is that the character before is a "\r", whose
-- line feed was written.
unfoldable pub normalize_loop : Bool → Bytes → Bytes
normalize_loop after_cr [] = []
normalize_loop after_cr (c ∷ content) =
    let rest = normalize_loop (c == 13) content in
    if c == 13 then 10 ∷ rest else if after_cr && c == 10 then rest else c ∷ rest

-- A loop that writes each "\n" as `eol`, up to the first zero.
unfoldable pub write_eol : Bytes → Bytes → Bytes
write_eol eol [] = []
write_eol eol (c ∷ out) =
    if c == 0 then [] else (if c == 10 then eol else c ∷ []) ++ write_eol eol out

-- What the file holds afterwards.
unfoldable pub convert_eol : Bytes → Bytes → Bytes
convert_eol content mode =
    let out = normalize_loop false content in
    if streq mode (codes "lf")
    then out
    else if streq mode (codes "crlf")
    then write_eol (13 ∷ 10 ∷ []) out
    else if streq mode (codes "cr")
    then write_eol (13 ∷ []) out
    else []

-- A text without zeros.
abbrev pub NoZero : Bytes → Type 0
NoZero [] = Unit
NoZero (c ∷ s) = (c ≢ 0) × NoZero s

-- A text without "\r".
abbrev NoReturn : Bytes → Type 0
NoReturn [] = Unit
NoReturn (c ∷ s) = (c ≢ 13) × NoReturn s

normalize_loop-NoReturn : (after : Bool) (s : Bytes) → NoReturn (normalize_loop after s)
unfolding normalize_loop
normalize_loop-NoReturn after [] = tt
normalize_loop-NoReturn after (c ∷ s) = ground (arith, normalize_loop-NoReturn (c == 13) s)

normalize_loop-NoZero : (after : Bool) (s : Bytes) → NoZero s → NoZero (normalize_loop after s)
unfolding normalize_loop
normalize_loop-NoZero after [] h = tt
normalize_loop-NoZero after (c ∷ s) h = ground (arith, normalize_loop-NoZero (c == 13) s h.1)

normalize-lf : (out : Bytes) → NoReturn out → normalize_loop false out ≡ out
unfolding normalize_loop
normalize-lf [] h = refl
normalize-lf (c ∷ out) h = ground (arith, normalize-lf out h.1)

normalize-cr :
    (after : Bool) (out : Bytes)
    → NoReturn out
    → NoZero out
    → normalize_loop after (write_eol (13 ∷ []) out) ≡ out
unfolding normalize_loop write_eol
normalize-cr after [] h z = refl
normalize-cr after (c ∷ out) h z =
    ground (arith, normalize-cr true out h.1 z.1, normalize-cr false out h.1 z.1)

normalize-crlf :
    (out : Bytes)
    → NoReturn out
    → NoZero out
    → normalize_loop false (write_eol (13 ∷ 10 ∷ []) out) ≡ out
unfolding normalize_loop write_eol
normalize-crlf [] h z = refl
normalize-crlf (c ∷ out) h z = ground (arith, normalize-crlf out h.1 z.1)

-- The modes that `convert_eol` knows.
unfoldable pub is_mode : Bytes → Bool
is_mode mode = streq mode (codes "lf") || streq mode (codes "crlf") || streq mode (codes "cr")

normalize-convert_eol :
    (content mode : Bytes)
    → NoZero content
    → is_mode mode ≡ true
    → normalize_loop false (convert_eol content mode) ≡ normalize_loop false content
unfolding convert_eol is_mode
normalize-convert_eol content mode z m =
    let out = normalize_loop false content in
    let r = normalize_loop-NoReturn false content in
    let z' = normalize_loop-NoZero false content z in
    ground (arith, normalize-lf out r, normalize-cr false out r z', normalize-crlf out r z')

-- Of a text without zeros, converting the line ends of a converted text gives what converting them at
-- once gives: the conversions differ in the line ends only, and each can be undone by another.
pub convert_eol-convert_eol :
    (content mode other : Bytes)
    → NoZero content
    → is_mode mode ≡ true
    → convert_eol (convert_eol content mode) other ≡ convert_eol content other
unfolding convert_eol
convert_eol-convert_eol content mode other z m = rw (normalize-convert_eol content mode z m) refl

-- A mode that `convert_eol` does not know, such as "unix" or "dos", leaves an empty file.
pub convert_eol-unknown :
    (content mode : Bytes) → is_mode mode ≡ false → convert_eol content mode ≡ []
unfolding convert_eol is_mode
convert_eol-unknown content mode m = ground arith
