-- ===== src/Examples/Texts.antt =====
-- Texts, patterns, references and revisions.
use gantt.Prelude.{
  ◌∙◌, suc, ◌<◌, ◌≡◌, refl, ◌↔◌, true, none, some, List, [], ◌∷◌, ◌++◌, arith, length,
}
use gantt.Text.{Bytes, codes, streq, streq_refl, str_split}
use gantt.Text.Split.{join, All, str_split_lem}
use gantt.Match.{stars, match_components}
use gantt.Match.Agree.{Agree, match_plain}
use gantt.Match.Wildcard.{Fits, match_wildcard}
use gantt.Dict.{Dict}
use gantt.Hashtable.Refines.{hashtable_dict}
use gantt.Variables.{replace_first, resolve_variables}
use gantt.Variables.Scan.{Lacks, reference}
use gantt.Variables.Pieces.{
  Piece, words, refer, ArePieces, AreUnset, print_pieces, replace_first-print_pieces,
}
use gantt.Variables.Resolve.{
  property_of, IsFlat, dollars, resolve_variables-total, resolve_variables_circular,
}
use gantt.Ivy.Revision.{tokenize_revision}
use gantt.Ivy.Revision.Tokens.{Runs, IsToken, tokenize_revision-Tokenizes}

str_split_lem_example :
    (tokens : List Bytes) × (str_split (codes "init, compile") (codes ",") 0 ≡ some tokens)
    × (0 < length tokens)
    × (join (codes ",") tokens ≡ codes "init, compile")
str_split_lem_example = str_split_lem (codes "init, compile") (codes ",") 0 (λ e. cc)

abbrev plain_pattern : List Bytes
plain_pattern = codes "src" ∷ codes "main" ∷ []

match_plain_example :
    (match_components streq plain_pattern plain_pattern ≡ true)
    ↔ Agree streq plain_pattern plain_pattern
match_plain_example =
    match_plain streq plain_pattern plain_pattern (unfold streq in (refl, (refl, tt)))

abbrev deep_path : List Bytes
deep_path = codes "src" ∷ codes "main" ∷ codes "java" ∷ codes "A.java" ∷ []

match_wildcard_example :
    (match_components streq (codes "src" ∷ stars ∷ codes "A.java" ∷ []) deep_path ≡ true)
    ↔ Fits streq (codes "src" ∷ []) (codes "A.java" ∷ []) deep_path
match_wildcard_example =
    match_wildcard streq (codes "src" ∷ []) (codes "A.java" ∷ []) deep_path
      (unfold streq in (refl, tt)) (unfold streq in (refl, tt))

abbrev D : Dict Bytes
D = hashtable_dict Bytes

-- One property, `src`.
abbrev table : Bytes → Dict.Table D
table v = Dict.insert D (Dict.empty D) (codes "src") v

table-src : (v : Bytes) → property_of D (table v) (codes "src") ≡ some v
table-src v =
    rw (Dict.lookup-insert D (Dict.empty D) (codes "src") (codes "src") v, streq_refl (codes "src"))

table-IsFlat : (v : Bytes) → Lacks b'$' v → IsFlat (property_of D (table v))
table-IsFlat v h name w e =
    ground
      (arith, Dict.lookup-insert D (Dict.empty D) (codes "src") name v, Dict.lookup-empty D name)

java-Lacks : Lacks b'$' (codes "java")
java-Lacks = (omega arith, (omega arith, (omega arith, (omega arith, tt))))

src-Lacks : Lacks b'}' (codes "src")
src-Lacks = (omega arith, (omega arith, (omega arith, tt)))

abbrev text : Bytes
text = codes "a/" ++ (reference (codes "src") ++ codes "/b")

a-Lacks : Lacks b'$' (codes "a/")
a-Lacks = (omega arith, (omega arith, tt))

-- A stretch, and a reference to a name with a "$" in it, which is not set.
abbrev passed : List Piece
passed = words (codes "a/") ∷ refer (codes "no$x") ∷ []

passed-ArePieces : ArePieces passed
passed-ArePieces = omega arith

passed-AreUnset : AreUnset (property_of D (table (codes "java"))) passed
unfolding streq
passed-AreUnset = (
  tt,
  (
    Dict.lookup-insert D (Dict.empty D) (codes "src") (codes "no$x") (codes "java")
        ∙ Dict.lookup-empty D (codes "no$x"),
    tt,
  ),
)

replace_first-print_pieces_example :
    (replace_first
        (property_of D (table (codes "java")))
        (print_pieces passed ++ (reference (codes "src") ++ codes "/b"))
      ≡ some (print_pieces passed ++ codes "java/b"))
    × (replace_first (property_of D (table (codes "java"))) (print_pieces passed) ≡ none)
replace_first-print_pieces_example =
    replace_first-print_pieces (property_of D (table (codes "java"))) passed (codes "src")
      (codes "/b") (codes "java") passed-ArePieces passed-AreUnset src-Lacks
      (table-src (codes "java"))

resolve_variables-total_example :
    (result : Bytes) × (resolve_variables D (suc (dollars text)) text (table (codes "java"))
      ≡ some result)
    × (replace_first (property_of D (table (codes "java"))) result ≡ none)
resolve_variables-total_example =
    resolve_variables-total D (table (codes "java")) text (table-IsFlat (codes "java") java-Lacks)

resolve_variables_circular_example :
    resolve_variables D 100 text (table (reference (codes "src"))) ≡ none
resolve_variables_circular_example =
    resolve_variables_circular D (table (reference (codes "src"))) 100 (codes "a/") (codes "src")
      (codes "/b") a-Lacks src-Lacks (table-src (reference (codes "src")))

tokenize_revision-Tokenizes_example :
    Runs (tokenize_revision (codes "1.2-rc3")) (codes "1.2-rc3")
    × All IsToken (tokenize_revision (codes "1.2-rc3"))
tokenize_revision-Tokenizes_example = tokenize_revision-Tokenizes (codes "1.2-rc3")
