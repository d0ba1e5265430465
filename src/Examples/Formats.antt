-- ===== src/Examples/Formats.antt =====
-- Documents, dynamic strings, encodings, line ends and sources to compile.
use gantt.Prelude.{◌≡◌, ◌≤◌, refl, some, List, [], ◌∷◌, ◌++◌, length, take, arith, ℕ}
use gantt.Text.{Bytes, codes}
use gantt.Ivy.Revision.{or_empty}
use gantt.Xml.{xml_parse}
use gantt.Xml.Build.{
  Element, element, local, in_namespace, HasNames, empty, text, child, element_events, element_tree,
  xml_parse-element_tree,
}
use gantt.StringBuffer.{
  StringBuf, string_new, string_append, string_append_len, string_append_c, string_truncate,
  contents,
}
use gantt.StringBuffer.Contents.{Holds, IsValid, string_append-Holds, string_operations-Hold}
use gantt.Native2ascii.{convert_file, buffer_size}
use gantt.Native2ascii.Decode.{utf8_text, AreCodepoints, utf8}
use gantt.Native2ascii.RoundTrip.{NoBackslash, IsAscii, read_units, utf16_text, convert_file-utf8}
use gantt.ConvertEol.{convert_eol}
use gantt.ConvertEol.Lines.{
  End, lf, crlf, cr, mode_name, written, rewritten, AreLines, convert_eol-written,
}

abbrev target_element : Element
target_element =
    element (local (codes "target"))
      ((codes "name", codes "jar") ∷ (codes "depends", codes "get") ∷ [])
      (text (codes "a") (
        child
          (element (in_namespace (codes "antlib:org.apache.ivy.ant") (codes "get")) []
            (text (codes "b") empty))
          (text (codes "c") empty)))

target-HasNames : HasNames target_element
target-HasNames = omega arith

xml_parse-element_tree_example :
    xml_parse (element_events target_element []) ≡ some (element_tree target_element)
xml_parse-element_tree_example = xml_parse-element_tree target_element target-HasNames

abbrev two_bytes_text : StringBuf
two_bytes_text = record { cells = b'a' ∷ b'b' ∷ 0 ∷ 7 ∷ []; len = 2; alloc = 4 }

two_bytes_text-IsValid : IsValid two_bytes_text
two_bytes_text-IsValid = record { sized = refl; room = omega arith; ended = refl }

string_append-Holds_example :
    Holds (string_append 5 two_bytes_text (codes "cde")) (contents two_bytes_text ++ codes "cde")
string_append-Holds_example =
    string_append-Holds 5 two_bytes_text (codes "cde") two_bytes_text-IsValid

string_operations-Hold_example :
    Holds (string_new 5 (some (codes "x"))) (codes "x")
    × Holds
        (string_append_len 5 two_bytes_text (codes "cde") 2)
        (contents two_bytes_text ++ take 2 (codes "cde"))
    × Holds (string_append_c 5 two_bytes_text b'!') (contents two_bytes_text ++ b'!' ∷ [])
    × Holds (string_truncate two_bytes_text) []
unfolding or_empty
string_operations-Hold_example =
    string_operations-Hold 5 two_bytes_text (some (codes "x")) (codes "cde") 2 b'!'
      two_bytes_text-IsValid (omega arith)

-- A letter, one of two bytes, and one of four.
abbrev cps : List ℕ
cps = b'a' ∷ 0xE9 ∷ 0x1F600 ∷ []

cps-AreCodepoints : AreCodepoints cps
cps-AreCodepoints = (omega arith, (omega arith, (omega arith, tt)))

cps-NoBackslash : NoBackslash cps
cps-NoBackslash = (omega arith, (omega arith, (omega arith, tt)))

cps-fit : length (utf8_text cps) ≤ buffer_size
unfolding utf8_text utf8
cps-fit = omega arith

convert_file-utf8_example :
    (out : Bytes) × (convert_file [] (utf8_text cps) ≡ some out)
    × IsAscii out
    × (read_units out ≡ utf16_text cps)
convert_file-utf8_example = convert_file-utf8 cps [] cps-AreCodepoints cps-NoBackslash cps-fit

abbrev lines : Bytes
lines = b'a' ∷ 13 ∷ 10 ∷ b'b' ∷ 10 ∷ []

-- Three lines with different ends.
abbrev mixed : List (Bytes × End)
mixed = (codes "a", crlf) ∷ (codes "b", cr) ∷ (codes "c", lf) ∷ []

mixed-AreLines : AreLines mixed (codes "d")
unfolding written
mixed-AreLines = omega arith

convert_eol-written_example :
    convert_eol (written mixed (codes "d")) (mode_name crlf) ≡ rewritten crlf mixed (codes "d")
convert_eol-written_example = convert_eol-written crlf mixed (codes "d") mixed-AreLines
