-- ===== src/Ivy/Report.antt =====
-- `xml_attr_escape` of src/ivy_report.c, and how a reader of XML takes such a value back.
use gantt.Prelude.{
  ◌≢◌, ℕ, zero, suc, Bool, true, [], ◌∷◌, ◌++◌, ◌==◌, if◌then◌else◌, drop, Option, none, some, not,
  ◌&&◌, ◌||◌,
}
use gantt.Text.{Bytes, codes, str_has_prefix}

unfoldable pub escape_char : ℕ → Bytes
escape_char c =
    if c == b'&'
    then codes "&amp;"
    else if c == b'<'
    then codes "&lt;"
    else if c == b'>'
    then codes "&gt;"
    else if c == b'"'
    then codes "&quot;"
    else if c == 10
    then codes "&#10;"
    else c ∷ []

-- The loop of `xml_attr_escape`; `NULL` is read as "".
unfoldable pub escape_loop : Bytes → Bytes
escape_loop [] = []
escape_loop (c ∷ s) = escape_char c ++ escape_loop s

unfoldable pub xml_attr_escape : Option Bytes → Bytes
xml_attr_escape none = []
xml_attr_escape (some s) = escape_loop s

-- A character or a reference at the beginning of a text, and its length. White space that stands there
-- itself, and not as a reference, is read as one space, and so is a pair of "\r" and "\n".
pub reference_value : Bytes → ℕ × ℕ
reference_value [] = (0, 0)
reference_value (c ∷ s) =
    if str_has_prefix (c ∷ s) (codes "&amp;")
    then (b'&', 5)
    else if str_has_prefix (c ∷ s) (codes "&lt;")
    then (b'<', 4)
    else if str_has_prefix (c ∷ s) (codes "&gt;")
    then (b'>', 4)
    else if str_has_prefix (c ∷ s) (codes "&quot;")
    then (b'"', 6)
    else if str_has_prefix (c ∷ s) (codes "&#10;")
    then (10, 5)
    else if str_has_prefix (c ∷ s) (13 ∷ 10 ∷ [])
    then (32, 2)
    else if c == 9 || c == 10 || c == 13
    then (32, 1)
    else (c, 1)

-- Reading a value: each reference stands for its character. On fuel, for which the length of the
-- text is enough.
pub unescape : ℕ → Bytes → Bytes
unescape zero s = []
unescape (suc fuel) [] = []
unescape (suc fuel) (c ∷ s) =
    let (value, used) = reference_value (c ∷ s) in value ∷ unescape fuel (drop used (c ∷ s))

-- Tabs and carriage returns as spaces.
pub spaced : ℕ → ℕ
spaced c = if c == 9 || c == 13 then 32 else c

-- What follows is no line feed that stands there itself.
abbrev NoFeed : Bytes → Type 0
NoFeed [] = Unit
NoFeed (c ∷ t) = c ≢ 10

-- No character that may not stand in a value between double quotes.
pub is_safe : Bytes → Bool
is_safe [] = true
is_safe (c ∷ s) = not (c == b'<' || c == b'>' || c == b'"' || c == 10) && is_safe s
