-- ===== src/Match.antt =====
-- src/match.c: patterns of path components against a path. `fnmatch` of the standard library is a
-- parameter: `fnmatch pattern text` says whether the C function returns 0 with no flags.
-- A pointer into one of the two lists is the list from that node on; the pointers that walk
-- backwards are the lists of the nodes from there down to `pat_ptr` and `str_ptr`, last node first.
pub mod Agree
pub mod Wildcard
use mathlib.Core.List.{reverse, tail}
use gantt.Prelude.{
  ℕ, Bool, true, false, ◌||◌, ◌&&◌, Option, none, some, List, [], ◌∷◌, ◌++◌, ◌==◌, if◌then◌else◌,
}
use gantt.Text.{Bytes, codes, streq, str_split, str_down}

abbrev pub stars : Bytes
stars = codes "**"

abbrev pub is_stars : Bytes → Bool
is_stars pattern = streq pattern stars

-- The tokens that `str_split` gives; it does not return `NULL` for this delimiter.
unfoldable pub path_as_list : Bytes → List Bytes
path_as_list path = elim (str_split path (codes "/") 0) [ none ↦ [] | some tokens ↦ tokens ]

unfoldable pub ends_in_slash : Bytes → Bool
ends_in_slash [] = false
ends_in_slash (c ∷ []) = c == b'/'
ends_in_slash (c ∷ d ∷ rest) = ends_in_slash (d ∷ rest)

-- A pattern that ends in "/" means all files below.
unfoldable pub modified_pattern : Bytes → Bytes
modified_pattern pattern = if ends_in_slash pattern then pattern ++ stars else pattern

module _ (fnmatch : Bytes → Bytes → Bool) where
  unfoldable pub match : Bytes → Bytes → Bool → Bool
  match pattern string case_sensitive =
      if case_sensitive
      then fnmatch pattern string
      else fnmatch (str_down pattern) (str_down string)

unfoldable pub all_stars : List Bytes → Bool
all_stars [] = true
all_stars (p ∷ pattern) = is_stars p && all_stars pattern

-- "**" between the two ends becomes "*", and ":" goes between the components.
unfoldable pub append_pattern : Bytes → List Bytes → Bytes
append_pattern pat_tmp [] = pat_tmp
append_pattern pat_tmp (p ∷ pattern) =
    append_pattern (pat_tmp ++ (codes ":" ++ (if is_stars p then codes "*" else p))) pattern

unfoldable pub append_string : Bytes → List Bytes → Bytes
append_string str_tmp [] = str_tmp
append_string str_tmp (s ∷ string) = append_string (str_tmp ++ (codes ":" ++ s)) string

-- `m pattern text` is `match(pattern, text, case_sensitive)`.
module _ (m : Bytes → Bytes → Bool) where
  -- The first loop; `none` is its `return false`.
  unfoldable pub match_forward : List Bytes → List Bytes → Option (List Bytes × List Bytes)
  match_forward [] string = some ([], string)
  match_forward (p ∷ pattern) [] = some (p ∷ pattern, [])
  match_forward (p ∷ pattern) (s ∷ string) =
      let next = match_forward pattern string in
      if is_stars p then some (p ∷ pattern, s ∷ string) else if m p s then next else none

  -- The second loop, over the nodes backwards: it ends where either list has one node left.
  unfoldable pub match_backward : List Bytes → List Bytes → Option (List Bytes × List Bytes)
  match_backward (p ∷ q ∷ pattern) (s ∷ t ∷ string) =
      let next = match_backward (q ∷ pattern) (t ∷ string) in
      if is_stars p then some (p ∷ q ∷ pattern, s ∷ t ∷ string) else if m p s then next else none
  match_backward pattern string = some (pattern, string)

  -- The strings from `pat_ptr` and `str_ptr` up to, not including, `pat_end` and `str_end`.
  unfoldable pub match_joined : List Bytes → List Bytes → Bool
  match_joined (p ∷ pattern) (s ∷ string) = m (append_pattern p pattern) (append_string s string)
  match_joined _ _ = true

  -- What follows the second loop.
  unfoldable pub match_middle : List Bytes → List Bytes → Bool
  match_middle (p ∷ []) string = true
  match_middle (p ∷ q ∷ pattern) (s ∷ t ∷ string) =
      match_joined (reverse (q ∷ pattern)) (reverse (t ∷ string))
  match_middle pattern string = all_stars pattern

  unfoldable pub match_ends : Option (List Bytes × List Bytes) → Bool
  match_ends none = false
  match_ends (some (pattern, string)) = match_middle pattern string

  -- What follows the first loop.
  unfoldable pub match_rest : Option (List Bytes × List Bytes) → Bool
  match_rest none = false
  match_rest (some (pattern, [])) = all_stars pattern
  match_rest (some ([], s ∷ string)) = false
  match_rest (some (p ∷ pattern, s ∷ string)) =
      match_ends (match_backward (reverse (p ∷ pattern)) (reverse (s ∷ string)))

  unfoldable pub match_components : List Bytes → List Bytes → Bool
  match_components pattern string = match_rest (match_forward pattern string)

-- `match_path`; a `string` that is `NULL` is `none`.
unfoldable pub match_path : (Bytes → Bytes → Bool) → Bytes → Option Bytes → Bool → Bool
match_path fnmatch pattern none case_sensitive = is_stars pattern || streq pattern (codes "*")
match_path fnmatch pattern (some string) case_sensitive =
    match_components (λ p s. match fnmatch p s case_sensitive)
      (path_as_list (modified_pattern pattern)) (path_as_list string)
