-- ===== src/Ivy/Pattern.antt =====
-- `ivy_pattern_substitute` of src/ivy_parse.c, with `substitute_flat` and `token_value`.
pub mod Substitute
use gantt.Prelude.{
  ℕ, zero, suc, Bool, true, false, ◌||◌, Option, none, some, List, [], ◌∷◌, ◌++◌, map, ◌==◌,
  if◌then◌else◌, length,
}
use gantt.Text.{Bytes, codes, streq}
use gantt.Ivy.Revision.{or_empty}

-- `ivy_pattern_tokens_t`
pub record PatternTokens : Type 0 where
  pub organisation : Option Bytes
  pub module_name : Option Bytes
  pub revision : Option Bytes
  pub artifact : Option Bytes
  pub artifact_type : Option Bytes
  pub ext : Option Bytes
  pub conf : Option Bytes
  pub classifier : Option Bytes

unfoldable pub dot_to_slash : ℕ → ℕ
dot_to_slash c = if c == b'.' then b'/' else c

unfoldable pub org_path : Option Bytes → Option Bytes
org_path none = none
org_path (some organisation) = some (map dot_to_slash organisation)

unfoldable pub token_value : Bytes → PatternTokens → Option Bytes
token_value name tokens =
    if streq name (codes "organisation") || streq name (codes "organization")
    then tokens.organisation
    else if streq name (codes "orgPath")
    then org_path tokens.organisation
    else if streq name (codes "module")
    then tokens.module_name
    else if streq name (codes "revision")
    then tokens.revision
    else if streq name (codes "artifact")
    then tokens.artifact
    else if streq name (codes "type")
    then tokens.artifact_type
    else if streq name (codes "ext")
    then tokens.ext
    else if streq name (codes "conf")
    then tokens.conf
    else if streq name (codes "classifier")
    then tokens.classifier
    else none

-- The inner loop that looks for the closing bracket: what stands before it, and behind it.
unfoldable pub find_close : ℕ → Bytes → Option (Bytes × Bytes)
find_close close [] = none
find_close close (c ∷ text) =
    let rest = find_close close text in
    if c == close
    then some ([], text)
    else elim rest [ none ↦ none | some (name, after) ↦ some (c ∷ name, after) ]

unfoldable pub is_empty : Bytes → Bool
is_empty [] = true
is_empty (c ∷ text) = false

module _ (tokens : PatternTokens) where
  -- The loop of `substitute_flat`: the text, and `*any_missing`. Each round takes a character at
  -- least, so the length of the text is fuel enough.
  unfoldable pub flat_loop : ℕ → Bytes → Bytes × Bool
  flat_loop zero text = ([], false)
  flat_loop (suc fuel) [] = ([], false)
  flat_loop (suc fuel) (c ∷ text) =
      let plain = flat_loop fuel text in
      if c == b'['
      then elim (find_close b']' text) [
        | none ↦ (c ∷ text, false)
        | some (name, after) ↦
            let rest = flat_loop fuel after in
            let value = or_empty (token_value name tokens) in
            (value ++ rest.0, is_empty value || rest.1)
      ]
      else (c ∷ plain.0, plain.1)

  unfoldable pub substitute_flat : Bytes → Bytes × Bool
  substitute_flat text = flat_loop (length text) text

  -- What an optional group adds.
  unfoldable pub group_text : Bytes × Bool → Bytes
  group_text (substituted, missing) = if missing then [] else substituted

  -- The loop of `ivy_pattern_substitute`.
  unfoldable pub pattern_loop : ℕ → Bytes → Bytes
  pattern_loop zero pattern = []
  pattern_loop (suc fuel) [] = []
  pattern_loop (suc fuel) (c ∷ pattern) =
      let plain = pattern_loop fuel pattern in
      if c == b'('
      then elim (find_close b')' pattern) [
        | none ↦ c ∷ pattern
        | some (inner, after) ↦ group_text (substitute_flat inner) ++ pattern_loop fuel after
      ]
      else if c == b'['
      then elim (find_close b']' pattern) [
        | none ↦ c ∷ pattern
        | some (name, after) ↦ or_empty (token_value name tokens) ++ pattern_loop fuel after
      ]
      else c ∷ plain

  unfoldable pub pattern_substitute : Option Bytes → Option Bytes
  pattern_substitute none = none
  pattern_substitute (some pattern) = some (pattern_loop (length pattern) pattern)
