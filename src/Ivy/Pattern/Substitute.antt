-- ===== src/Ivy/Pattern/Substitute.antt =====
-- Substitution in a pattern that is written out from its pieces.
use gantt.Prelude.{
  ℕ, zero, suc, ◌≤◌, ◌≡◌, refl, ◌≢◌, Bool, false, ◌||◌, some, List, [], ◌∷◌, ◌++◌, arith,
  if◌then◌else◌, length, length-append, ap,
}
use gantt.Text.{Bytes}
use gantt.Variables.Scan.{Lacks, Lacks-append}
use gantt.Ivy.Revision.{or_empty}
use gantt.Ivy.Pattern.{
  PatternTokens, token_value, find_close, is_empty, flat_loop, substitute_flat, group_text,
  pattern_loop, pattern_substitute,
}

-- A character, or a token in brackets.
pub data FlatPiece : Type 0 where
  letter : ℕ → FlatPiece
  token : Bytes → FlatPiece

-- A piece of a pattern: one of the above, or an optional group of them.
pub data Piece : Type 0 where
  flat : FlatPiece → Piece
  group : List FlatPiece → Piece

-- How the pieces are written.
pub print_flat : List FlatPiece → Bytes
print_flat [] = []
print_flat (letter c ∷ pieces) = c ∷ print_flat pieces
print_flat (token name ∷ pieces) = b'[' ∷ (name ++ b']' ∷ print_flat pieces)

pub print_pieces : List Piece → Bytes
print_pieces [] = []
print_pieces (flat (letter c) ∷ pieces) = c ∷ print_pieces pieces
print_pieces (flat (token name) ∷ pieces) = b'[' ∷ (name ++ b']' ∷ print_pieces pieces)
print_pieces (group inner ∷ pieces) = b'(' ∷ (print_flat inner ++ b')' ∷ print_pieces pieces)

-- A piece of a group has no character that ends it or its group.
abbrev pub IsInner : List FlatPiece → Type 0
IsInner [] = Unit
IsInner (letter c ∷ pieces) = ((c ≢ b'[') × (c ≢ b')')) × IsInner pieces
IsInner (token name ∷ pieces) = (Lacks b']' name × Lacks b')' name) × IsInner pieces

abbrev pub IsPattern : List Piece → Type 0
IsPattern [] = Unit
IsPattern (flat (letter c) ∷ pieces) = ((c ≢ b'[') × (c ≢ b'(')) × IsPattern pieces
IsPattern (flat (token name) ∷ pieces) = Lacks b']' name × IsPattern pieces
IsPattern (group inner ∷ pieces) = IsInner inner × IsPattern pieces

find_close-first :
    (close : ℕ) (name after : Bytes)
    → Lacks close name
    → find_close close (name ++ close ∷ after) ≡ some (name, after)
unfolding find_close
find_close-first close [] after h = ground arith
find_close-first close (c ∷ name) after h =
    ground (arith, find_close-first close name after h.1, h.0)

Lacks-print : (pieces : List FlatPiece) → IsInner pieces → Lacks b')' (print_flat pieces)
unfolding print_flat
Lacks-print [] h = tt
Lacks-print (letter c ∷ pieces) h = (h.0.1, Lacks-print pieces h.1)
Lacks-print (token name ∷ pieces) h = (
  omega arith,
  Lacks-append b')' name (b']' ∷ print_flat pieces) h.0.1 (omega arith, Lacks-print pieces h.1),
)

module _ (tokens : PatternTokens) where
  -- What the pieces stand for: a token for its value, or for nothing where it has none.
  pub flat_text : List FlatPiece → Bytes
  flat_text [] = []
  flat_text (letter c ∷ pieces) = c ∷ flat_text pieces
  flat_text (token name ∷ pieces) = or_empty (token_value name tokens) ++ flat_text pieces

  -- Some token has no value, or an empty one.
  pub is_missing : List FlatPiece → Bool
  is_missing [] = false
  is_missing (letter c ∷ pieces) = is_missing pieces
  is_missing (token name ∷ pieces) =
      is_empty (or_empty (token_value name tokens)) || is_missing pieces

  -- A group is there only where none of its tokens is missing.
  pub pieces_text : List Piece → Bytes
  pieces_text [] = []
  pieces_text (flat (letter c) ∷ pieces) = c ∷ pieces_text pieces
  pieces_text (flat (token name) ∷ pieces) =
      or_empty (token_value name tokens) ++ pieces_text pieces
  pieces_text (group inner ∷ pieces) =
      (if is_missing inner then [] else flat_text inner) ++ pieces_text pieces

  flat_loop-print :
      (fuel : ℕ) (pieces : List FlatPiece)
      → IsInner pieces
      → length (print_flat pieces) ≤ fuel
      → flat_loop tokens fuel (print_flat pieces) ≡ (flat_text pieces, is_missing pieces)
  unfolding flat_loop print_flat flat_text is_missing
  flat_loop-print zero [] h l = refl
  flat_loop-print (suc fuel) [] h l = refl
  flat_loop-print zero (letter c ∷ pieces) h l = absurd (omega arith)
  flat_loop-print zero (token name ∷ pieces) h l = absurd (omega arith)
  flat_loop-print (suc fuel) (letter c ∷ pieces) h l =
      ground (arith, h.0.0, flat_loop-print fuel pieces h.1 (omega arith))
  flat_loop-print (suc fuel) (token name ∷ pieces) h l =
      rw
        (
          find_close-first b']' name (print_flat pieces) h.0.0,
          flat_loop-print fuel pieces h.1
              (omega (arith, length-append name (b']' ∷ print_flat pieces))),
        )
        refl

  pattern_loop-print :
      (fuel : ℕ) (pieces : List Piece)
      → IsPattern pieces
      → length (print_pieces pieces) ≤ fuel
      → pattern_loop tokens fuel (print_pieces pieces) ≡ pieces_text pieces
  unfolding pattern_loop print_pieces pieces_text substitute_flat group_text
  pattern_loop-print zero [] h l = refl
  pattern_loop-print (suc fuel) [] h l = refl
  pattern_loop-print zero (flat (letter c) ∷ pieces) h l = absurd (omega arith)
  pattern_loop-print zero (flat (token name) ∷ pieces) h l = absurd (omega arith)
  pattern_loop-print zero (group inner ∷ pieces) h l = absurd (omega arith)
  pattern_loop-print (suc fuel) (flat (letter c) ∷ pieces) h l =
      ground (arith, h.0.0, h.0.1, pattern_loop-print fuel pieces h.1 (omega arith))
  pattern_loop-print (suc fuel) (flat (token name) ∷ pieces) h l =
      rw
        (
          find_close-first b']' name (print_pieces pieces) h.0,
          pattern_loop-print fuel pieces h.1
              (omega (arith, length-append name (b']' ∷ print_pieces pieces))),
        )
        refl
  pattern_loop-print (suc fuel) (group inner ∷ pieces) h l =
      rw
        (
          find_close-first b')' (print_flat inner) (print_pieces pieces) (Lacks-print inner h.0),
          flat_loop-print (length (print_flat inner)) inner h.0 (omega arith),
          pattern_loop-print fuel pieces h.1
              (omega (arith, length-append (print_flat inner) (b')' ∷ print_pieces pieces))),
        )
        refl

  -- A pattern written out from its pieces, where no character or name holds what would end it
  -- too early, substitutes to the text of the pieces: each token is its value, an optional group
  -- is left out when one of its tokens has no value, and nothing else changes.
  pub pattern_substitute-print :
      (pieces : List Piece)
      → IsPattern pieces
      → pattern_substitute tokens (some (print_pieces pieces)) ≡ some (pieces_text pieces)
  unfolding pattern_substitute
  pattern_substitute-print pieces h =
      ap some (pattern_loop-print (length (print_pieces pieces)) pieces h (omega arith))
