-- ===== src/Properties.antt =====
-- Properties of src/property.c: a text in the format of Java's property files is read into the
-- project's property table. What `file_get_contents` and `url_fetch` bring is a parameter; `none`
-- is a file that cannot be read.
pub mod Immutable
pub mod Invoke
pub mod Task
use gantt.Prelude.{
  ℕ, Bool, true, false, ◌||◌, Option, none, some, List, [], ◌∷◌, ◌++◌, map, ◌==◌, if◌then◌else◌,
}
use gantt.Text.{Bytes, codes, str_split, str_strip}
use gantt.Dict.{Dict}

-- `maybe_append_dot`, which ends a prefix in "." unless it does so.
unfoldable pub maybe_append_dot : Bytes → Bytes
maybe_append_dot [] = b'.' ∷ []
maybe_append_dot (c ∷ []) = if c == b'.' then c ∷ [] else c ∷ b'.' ∷ []
maybe_append_dot (c ∷ d ∷ text) = c ∷ maybe_append_dot (d ∷ text)

-- `str_delimit(contents, "\r", '\n')`
unfoldable pub normalize_char : ℕ → ℕ
normalize_char c = if c == 13 then 10 else c

unfoldable pub normalize_lines : Bytes → Bytes
normalize_lines contents = map normalize_char contents

-- Empty lines and comments.
unfoldable pub is_skipped : Bytes → Bool
is_skipped [] = true
is_skipped (c ∷ line) = c == b'#' || c == b'!'

-- The two parts of a line, split at "=", or else at ":".
unfoldable pub split_entry : Bytes → List Bytes
split_entry line = elim (str_split line (codes "=") 2) [
  | some (key ∷ value ∷ rest) ↦ key ∷ value ∷ rest
  | _ ↦ elim (str_split line (codes ":") 2) [ none ↦ [] | some entry ↦ entry ]
]

unfoldable pub prefixed : Option Bytes → Bytes → Bytes
prefixed none key = key
prefixed (some prefix) key = prefix ++ key

-- The name and the value of a line.
unfoldable pub entry_of : Option Bytes → List Bytes → Option (Bytes × Bytes)
entry_of prefix [] = none
entry_of prefix (key ∷ []) = some (prefixed prefix (str_strip key), [])
entry_of prefix (key ∷ value ∷ rest) = some (prefixed prefix (str_strip key), str_strip value)

unfoldable pub line_entry : Option Bytes → Bytes → Option (Bytes × Bytes)
line_entry prefix line =
    if is_skipped (str_strip line) then none else entry_of prefix (split_entry (str_strip line))

module _ (D : Dict Bytes) where
  -- `set_property_if_unset`: whether the property was set, and the table.
  unfoldable pub set_property_if_unset : Dict.Table D → Bytes → Bytes → Bool × Dict.Table D
  set_property_if_unset property_dict name value = elim (Dict.lookup D property_dict name) [
    | some old ↦ (false, property_dict)
    | none ↦ (true, Dict.insert D property_dict name value)
  ]

  unfoldable pub set_entry : Dict.Table D → Option (Bytes × Bytes) → Dict.Table D
  set_entry property_dict none = property_dict
  set_entry property_dict (some (name, value)) = (set_property_if_unset property_dict name value).1

  -- The loop over the lines.
  unfoldable pub read_lines : Option Bytes → List Bytes → Dict.Table D → Dict.Table D
  read_lines prefix [] property_dict = property_dict
  read_lines prefix (line ∷ lines) property_dict =
      read_lines prefix lines (set_entry property_dict (line_entry prefix line))

  -- `property_parse_string`, which has no more than 4096 lines: the last holds what is left.
  unfoldable pub property_parse_string : Dict.Table D → Bytes → Option Bytes → Dict.Table D
  property_parse_string property_dict contents prefix =
      elim (str_split (normalize_lines contents) (codes "\n") 4096) [
        | none ↦ property_dict
        | some lines ↦ read_lines prefix lines property_dict
      ]

  -- `property_read_file` and `property_read_url`, of what was read or fetched.
  unfoldable pub property_read : Dict.Table D → Option Bytes → Option Bytes → Bool × Dict.Table D
  property_read property_dict none prefix = (false, property_dict)
  property_read property_dict (some contents) prefix =
      (true, property_parse_string property_dict contents prefix)
