-- ===== src/Variables/Pieces.antt =====
-- Texts with references to properties, and what `resolve_variables` (src/project.c) makes of them.
use mathlib.Core.List.{append-nil, append_assoc}
use gantt.Prelude.{
  ℕ, suc, ◌≡◌, ◌≢◌, refl, sym, ◌∙◌, ap, Option, none, some, List, [], ◌∷◌, ◌++◌, arith,
}
use gantt.Text.{Bytes, Lacks}
use gantt.Dict.{Dict}
use gantt.Variables.{plain, in_variable, next_mode, replacement, scan, replace_first}
use gantt.Variables.Scan.{reference, scan-name, scan-text}

-- A stretch of text, or a reference to a property.
pub data Piece : Type 0 where
  words : Bytes → Piece
  refer : Bytes → Piece

pub print_piece : Piece → Bytes
print_piece (words text) = text
print_piece (refer name) = reference name

pub print_pieces : List Piece → Bytes
print_pieces [] = []
print_pieces (piece ∷ pieces) = print_piece piece ++ print_pieces pieces

-- The references among the pieces.
unfoldable pub references : List Piece → ℕ
references [] = 0
references (words text ∷ pieces) = references pieces
references (refer name ∷ pieces) = suc (references pieces)

-- A stretch holds no "$", and the name of a reference no "}".
abbrev pub IsPiece : Piece → Type 0
IsPiece (words text) = Lacks b'$' text
IsPiece (refer name) = Lacks b'}' name

abbrev pub ArePieces : List Piece → Type 0
ArePieces [] = Unit
ArePieces (piece ∷ pieces) = IsPiece piece × ArePieces pieces

module _ (property : Bytes → Option Bytes) where
  -- What a piece stands for: a reference to a property that is not set stays as it is.
  pub piece_text : Piece → Bytes
  piece_text (words text) = text
  piece_text (refer name) = elim (property name) [ none ↦ reference name | some value ↦ value ]

  pub pieces_text : List Piece → Bytes
  pieces_text [] = []
  pieces_text (piece ∷ pieces) = piece_text piece ++ pieces_text pieces

  -- A piece that refers to no set property.
  abbrev pub IsUnset : Piece → Type 0
  IsUnset (words text) = Unit
  IsUnset (refer name) = property name ≡ none

  abbrev pub AreUnset : List Piece → Type 0
  AreUnset [] = Unit
  AreUnset (piece ∷ pieces) = IsUnset piece × AreUnset pieces

  -- A stretch of text is passed.
  scan-words :
      (seen : Bytes) (last : ℕ) (text rest : Bytes)
      → last ≢ b'$'
      → Lacks b'$' text
      → (last' : ℕ) × (last' ≢ b'$')
        × (scan property seen last plain (text ++ rest)
            ≡ scan property (seen ++ text) last' plain rest)
  unfolding scan replacement next_mode
  scan-words seen last [] rest n h = (last, n, rw (append-nil seen) refl)
  scan-words seen last (c ∷ text) rest n h =
      let (last', n', e) = scan-words (seen ++ c ∷ []) c text rest h.0 h.1 in
      (last', n', ground (arith, n, e, append_assoc seen (c ∷ []) text))

  -- The name of a reference that is not set is passed, and its end.
  scan-unset_name :
      (seen : Bytes) (last : ℕ) (buf var_name name rest : Bytes)
      → Lacks b'}' name
      → property (var_name ++ name) ≡ none
      → scan property seen last (in_variable buf var_name) (name ++ b'}' ∷ rest)
        ≡ scan property (seen ++ (name ++ b'}' ∷ [])) b'}' plain rest
  unfolding scan replacement next_mode
  scan-unset_name seen last buf var_name [] rest h e = rw (rw append-nil at e) refl
  scan-unset_name seen last buf var_name (c ∷ name) rest h e = ground (
    arith,
    h.0,
    scan-unset_name (seen ++ c ∷ []) c buf (var_name ++ c ∷ []) name rest h.1
        (rw (append_assoc var_name (c ∷ []) name) e),
    append_assoc seen (c ∷ []) (name ++ b'}' ∷ []),
  )

  -- A reference opens.
  scan-open :
      (seen : Bytes) (last : ℕ) (rest : Bytes)
      → last ≢ b'$'
      → scan property seen last plain (b'$' ∷ b'{' ∷ rest)
        ≡ scan property (seen ++ b'$' ∷ b'{' ∷ []) b'{' (in_variable seen []) rest
  scan-open seen last rest n = scan-text property seen last [] rest n tt ∙ rw (append-nil seen) refl

  reference-append :
      (name rest : Bytes) → reference name ++ rest ≡ b'$' ∷ b'{' ∷ (name ++ b'}' ∷ rest)
  reference-append name rest =
      ap (λ (t : Bytes). b'$' ∷ b'{' ∷ t) (append_assoc name (b'}' ∷ []) rest)

  scan-piece :
      (piece : Piece) (seen : Bytes) (last : ℕ) (rest : Bytes)
      → last ≢ b'$'
      → IsPiece piece
      → IsUnset piece
      → (last' : ℕ) × (last' ≢ b'$')
        × (scan property seen last plain (print_piece piece ++ rest)
            ≡ scan property (seen ++ print_piece piece) last' plain rest)
  unfolding print_piece
  scan-piece (words text) seen last rest n h u = scan-words seen last text rest n h
  scan-piece (refer name) seen last rest n h u = (
    b'}',
    omega arith,
    ap (scan property seen last plain) (reference-append name rest)
        ∙ scan-open seen last (name ++ b'}' ∷ rest) n
        ∙ scan-unset_name (seen ++ b'$' ∷ b'{' ∷ []) b'{' seen [] name rest h u
        ∙ ap (λ (t : Bytes). scan property t b'}' plain rest)
            (append_assoc seen (b'$' ∷ b'{' ∷ []) (name ++ b'}' ∷ [])),
  )

  scan-pieces :
      (pieces : List Piece) (seen : Bytes) (last : ℕ) (rest : Bytes)
      → last ≢ b'$'
      → ArePieces pieces
      → AreUnset pieces
      → (last' : ℕ) × (last' ≢ b'$')
        × (scan property seen last plain (print_pieces pieces ++ rest)
            ≡ scan property (seen ++ print_pieces pieces) last' plain rest)
  unfolding print_pieces
  scan-pieces [] seen last rest n h u = (last, n, rw (append-nil seen) refl)
  scan-pieces (piece ∷ pieces) seen last rest n h u =
      let (last', n', e) = scan-piece piece seen last (print_pieces pieces ++ rest) n h.0 u.0 in
      let (last'', n'', e') =
        scan-pieces pieces (seen ++ print_piece piece) last' rest n' h.1 u.1 in
      (
        last'',
        n'',
        ap (scan property seen last plain)
              (append_assoc (print_piece piece) (print_pieces pieces) rest)
            ∙ e
            ∙ e'
            ∙ ap (λ (t : Bytes). scan property t last'' plain rest)
                (append_assoc seen (print_piece piece) (print_pieces pieces)),
      )

  replace_first-found :
      (pieces : List Piece) (name after value : Bytes)
      → ArePieces pieces
      → AreUnset pieces
      → Lacks b'}' name
      → property name ≡ some value
      → replace_first property (print_pieces pieces ++ (reference name ++ after))
        ≡ some (print_pieces pieces ++ (value ++ after))
  unfolding replace_first
  replace_first-found pieces name after value h u c e =
      let (last, n, passed) = scan-pieces pieces [] 0 (reference name ++ after) (omega arith) h u in
      passed
      ∙ ap (scan property (print_pieces pieces) last plain) (reference-append name after)
      ∙ scan-open (print_pieces pieces) last (name ++ b'}' ∷ after) n
      ∙ scan-name property (print_pieces pieces ++ b'$' ∷ b'{' ∷ []) b'{' (print_pieces pieces) []
          name after value c e

  replace_first-unset :
      (pieces : List Piece)
      → ArePieces pieces
      → AreUnset pieces
      → replace_first property (print_pieces pieces) ≡ none
  unfolding replace_first scan
  replace_first-unset pieces h u =
      let (last, n, passed) = scan-pieces pieces [] 0 [] (omega arith) h u in
      ap (scan property [] 0 plain) (sym (append-nil (print_pieces pieces))) ∙ passed

  -- Behind any text that is written as stretches without "$" and references to properties that are
  -- not set, a reference to a set property is replaced by its value, whatever follows; and where
  -- nothing else follows such a text, nothing is replaced.
  pub replace_first-print_pieces :
      (pieces : List Piece) (name after value : Bytes)
      → ArePieces pieces
      → AreUnset pieces
      → Lacks b'}' name
      → property name ≡ some value
      → (replace_first property (print_pieces pieces ++ (reference name ++ after))
          ≡ some (print_pieces pieces ++ (value ++ after)))
        × (replace_first property (print_pieces pieces) ≡ none)
  replace_first-print_pieces pieces name after value h u c e =
      (replace_first-found pieces name after value h u c e, replace_first-unset pieces h u)
