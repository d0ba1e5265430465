-- ===== src/Variables.antt =====
-- `resolve_variables` of src/project.c: the `${name}` references of a text are replaced by the
-- values of the project's properties, one at a time, until none is left that has a value.
-- The property table is any dictionary; `Hashtable.Refines` gives the source's.
pub mod Scan
pub mod Resolve
pub mod Pieces
use gantt.Prelude.{
  ℕ, zero, suc, ◌-◌, Bool, ◌&&◌, Option, none, some, List, [], ◌∷◌, ◌++◌, ◌==◌, if◌then◌else◌,
  length, take,
}
use gantt.Text.{Bytes}
use gantt.Dict.{Dict}

-- `in_variable` with the two buffers that are then in use: the text before the reference, and the
-- name so far.
pub data Mode : Type 0 where
  plain : Mode
  in_variable : Bytes → Bytes → Mode

-- What a property lookup answers, `hashtable_lookup(project->property_dict, name)`.
module _ (property : Bytes → Option Bytes) where
  -- A round of the loop that does not end it: the mode after the character `c`.
  unfoldable pub next_mode : Bytes → ℕ → ℕ → Mode → Mode
  next_mode seen last c plain =
      if c == b'{' && last == b'$' then in_variable (take (length seen - 1) seen) [] else plain
  next_mode seen last c (in_variable buf var_name) =
      if c == b'}' then plain else in_variable buf (var_name ++ c ∷ [])

  -- The round that ends the loop: the new value, where a reference with a value ends.
  unfoldable pub replacement : ℕ → Mode → Bytes → Option Bytes
  replacement c plain rest = none
  replacement c (in_variable buf var_name) rest =
      if c == b'}'
      then elim (property var_name) [ none ↦ none | some value ↦ some (buf ++ (value ++ rest)) ]
      else none

  -- The loop over `value`. `seen` is what stands before position `i`, `last` the character before
  -- it (0 at the start). `some` is the value after one replacement, `none` the end of the loop
  -- without any.
  unfoldable pub scan : Bytes → ℕ → Mode → Bytes → Option Bytes
  scan seen last mode [] = none
  scan seen last mode (c ∷ rest) =
      let next = scan (seen ++ c ∷ []) c (next_mode seen last c mode) rest in
      elim (replacement c mode rest) [ none ↦ next | some value ↦ some value ]

  unfoldable pub replace_first : Bytes → Option Bytes
  replace_first value = scan [] 0 plain value

  -- The recursion of `resolve_variables`, on fuel; `none` is that the fuel ran out.
  unfoldable pub resolve_loop : ℕ → Bytes → Option Bytes
  resolve_loop zero value = none
  resolve_loop (suc fuel) value = elim (replace_first value) [
    | none ↦ some value
    | some value' ↦ resolve_loop fuel value'
  ]

module _ (D : Dict Bytes) where
  unfoldable pub resolve_variables : ℕ → Bytes → Dict.Table D → Option Bytes
  resolve_variables fuel value property_dict =
      resolve_loop (λ name. Dict.lookup D property_dict name) fuel value
