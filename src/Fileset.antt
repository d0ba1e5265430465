-- ===== src/Fileset.antt =====
-- Which files of a directory a fileset takes: `selector_match_file` of src/selector.c and the two
-- passes of `add_files` in src/fileset.c. `resolve` is `resolve_variables` of
-- `Variables` on the property table. Reading the directory is outside of the model.
use gantt.Prelude.{
  ◌≡◌, refl, Bool, true, false, not, Option, none, some, List, [], ◌∷◌, ◌++◌, arith, if◌then◌else◌,
  length, drop, Option-cases, Bool-cases, inl, inr, ◌⊎◌,
}
use gantt.Text.{Bytes, str_has_prefix}
use gantt.Match.{match_path}
use gantt.Conditions.{test_value, unless_stopped}
use gantt.Location.{expand_location}
use gantt.Selectors.{
  SelectorType, selector_include, selector_exclude, SelectorFields, skip_slash, relative_filename,
}

-- `fileset_t` as far as a file's match depends on it; nested selectors of other types match no file.
pub record Fileset : Type 0 where
  pub dir : Bytes
  pub case_sensitive : Bool
  pub selector_list : List SelectorFields

unfoldable pub is_include : SelectorType → Bool
is_include selector_include = true
is_include _ = false

unfoldable pub is_exclude : SelectorType → Bool
is_exclude selector_exclude = true
is_exclude _ = false

module _ (fnmatch : Bytes → Bytes → Bool) (resolve : Bytes → Option Bytes) (current_dir : Bytes)
    (base_dir : Option Bytes) where
  unfoldable pub match_pattern : Fileset → Option Bytes → Bytes → Option Bool
  match_pattern fileset none filename = some false
  match_pattern fileset (some pattern) filename =
      test_value (λ p. match_path fnmatch p (some filename) fileset.case_sensitive)
        (resolve pattern)

  -- What `selector_match_file` does with the resolved directory.
  unfoldable pub match_below : Fileset → SelectorFields → Bytes → Option Bytes → Option Bool
  match_below fileset fields filename none = none
  match_below fileset fields filename (some dir) =
      let below =
        relative_filename filename (expand_location current_dir base_dir dir) fileset.dir in
      if is_include fields.selector_type
      then match_pattern fileset fields.name below
      else if is_exclude fields.selector_type
      then match_pattern fileset fields.name below
      else some false

  unfoldable pub selector_match_file : Fileset → Bytes → SelectorFields → Option Bool
  selector_match_file fileset filename fields =
      match_below fileset fields filename (resolve fileset.dir)

  module _ (fileset : Fileset) (filename : Bytes) where
    -- One pass: a selector of the kind that matches ends it.
    unfoldable pub pass : (SelectorType → Bool) → List SelectorFields → Option Bool
    pass kind [] = some false
    pass kind (fields ∷ list) =
        let rest = pass kind list in
        if kind fields.selector_type
        then unless_stopped true (selector_match_file fileset filename fields) rest
        else rest

    -- The second pass, after the outcome of the first.
    unfoldable pub second_pass : Option Bool → Option Bool
    second_pass none = none
    second_pass (some false) = some false
    second_pass (some true) = test_value not (pass is_exclude fileset.selector_list)

    unfoldable pub takes_file : Option Bool
    takes_file = second_pass (pass is_include fileset.selector_list)

    -- Some selector of the kind matches the file, or none does.
    abbrev pub SomeMatches : (SelectorType → Bool) → List SelectorFields → Type 0
    SomeMatches kind [] = ⊥
    SomeMatches kind (fields ∷ list) =
        ((kind fields.selector_type ≡ true)
          × (selector_match_file fileset filename fields ≡ some true))
        ⊎ SomeMatches kind list

    abbrev pub NoneMatches : (SelectorType → Bool) → List SelectorFields → Type 0
    NoneMatches kind [] = Unit
    NoneMatches kind (fields ∷ list) =
        ((kind fields.selector_type ≡ false)
          ⊎ (selector_match_file fileset filename fields ≡ some false))
        × NoneMatches kind list

    pass-true :
        (kind : SelectorType → Bool) (list : List SelectorFields)
        → pass kind list ≡ some true
        → SomeMatches kind list
    unfolding pass unless_stopped
    pass-true kind [] h = cc
    pass-true kind (fields ∷ list) h = elim (Bool-cases (kind fields.selector_type)) [
      | inr e ↦ inr (pass-true kind list (ground arith))
      | inl e ↦ elim (Option-cases (selector_match_file fileset filename fields)) [
        | inl f ↦ ground arith
        | inr (true, f) ↦ inl (e, f)
        | inr (false, f) ↦ inr (pass-true kind list (ground arith))
      ]
    ]

    pass-false :
        (kind : SelectorType → Bool) (list : List SelectorFields)
        → pass kind list ≡ some false
        → NoneMatches kind list
    unfolding pass unless_stopped
    pass-false kind [] h = tt
    pass-false kind (fields ∷ list) h = elim (Bool-cases (kind fields.selector_type)) [
      | inr e ↦ (inl e, pass-false kind list (ground arith))
      | inl e ↦ elim (Option-cases (selector_match_file fileset filename fields)) [
        | inl f ↦ ground arith
        | inr (true, f) ↦ ground arith
        | inr (false, f) ↦ (inr f, pass-false kind list (ground arith))
      ]
    ]

    -- A file that is taken is matched by an include, and by no exclude.
    pub takes_file_sound :
        takes_file ≡ some true
        → SomeMatches is_include fileset.selector_list
          × NoneMatches is_exclude fileset.selector_list
    unfolding takes_file second_pass test_value
    takes_file_sound h = (
      pass-true is_include fileset.selector_list (ground arith),
      pass-false is_exclude fileset.selector_list (ground arith),
    )

    -- A file that is not taken is matched by no include, or by an exclude.
    pub takes_file_complete :
        takes_file ≡ some false
        → NoneMatches is_include fileset.selector_list
          ⊎ SomeMatches is_exclude fileset.selector_list
    unfolding takes_file second_pass test_value
    takes_file_complete h = elim (Option-cases (pass is_include fileset.selector_list)) [
      | inl e ↦ ground arith
      | inr (false, e) ↦ inl (pass-false is_include fileset.selector_list e)
      | inr (true, e) ↦ inr (pass-true is_exclude fileset.selector_list (ground arith))
    ]

has_prefix-append : (dir rest : Bytes) → str_has_prefix (dir ++ rest) dir ≡ true
unfolding str_has_prefix
has_prefix-append [] rest = ground arith
has_prefix-append (c ∷ dir) rest = ground (arith, has_prefix-append dir rest)

drop-append : (dir rest : Bytes) → drop (length dir) (dir ++ rest) ≡ rest
drop-append [] rest = refl
drop-append (c ∷ dir) rest = drop-append dir rest

-- A file below the expanded directory is matched by its path from there.
pub relative_filename-below :
    (dir fileset_dir name : Bytes) → relative_filename (dir ++ b'/' ∷ name) dir fileset_dir ≡ name
unfolding relative_filename skip_slash
relative_filename-below dir fileset_dir name =
    rw (has_prefix-append dir (b'/' ∷ name), drop-append dir (b'/' ∷ name)) refl
