-- ===== src/Selectors.antt =====
-- src/selector.c: whether a file matches a selector. A named selector is looked up and evaluated in
-- turn, so the recursion is on fuel for the number of such hops; `none` is that the fuel ran out,
-- or that `resolve`, which is `resolve_variables` of `Variables` on the property table, did not
-- return.
pub mod Laws
use gantt.Prelude.{
  ℕ, zero, suc, ◌+◌, Bool, true, false, not, Option, none, some, List, [], ◌∷◌, ◌==◌, if◌then◌else◌,
  length, drop,
}
use gantt.Text.{Bytes, codes, str_has_prefix, strstr}
use gantt.Match.{match_path}
use gantt.Conditions.{test_value, unless_stopped, is_set}
use gantt.Location.{expand_location}

-- `SELECTOR_…`; the types that are not told apart here match nothing.
pub data SelectorType : Type 0 where
  selector_or : SelectorType
  selector_and : SelectorType
  selector_not : SelectorType
  selector_refid : SelectorType
  selector_filename : SelectorType
  selector_include : SelectorType
  selector_exclude : SelectorType
  selector_other : SelectorType

-- The fields of `selector_t` but for the children. Both lookups of the name in `attribute_dict`
-- have the key "name".
pub record SelectorFields : Type 0 where
  pub selector_type : SelectorType
  pub name : Option Bytes
  pub refid : Option Bytes
  pub unless_prop : Option Bytes
  pub if_prop : Option Bytes

mutual
  pub data Selector : Type 0 where
    selector : SelectorFields → Selectors → Selector

  pub data Selectors : Type 0 where
    no_selector : Selectors
    selector_then : Selector → Selectors → Selectors

-- A property that is named is set.
unfoldable pub names_set : (Bytes → Option Bytes) → Option Bytes → Bool
names_set property none = false
names_set property (some name) = is_set (property name)

-- A property that is named is not set.
unfoldable pub names_unset : (Bytes → Option Bytes) → Option Bytes → Bool
names_unset property none = false
names_unset property (some name) = not (is_set (property name))

module _ (fnmatch : Bytes → Bytes → Bool) (resolve : Bytes → Option Bytes)
    (property : Bytes → Option Bytes) where
  unfoldable pub match_name : Option Bytes → Bytes → Option Bool
  match_name none filepath = some false
  match_name (some pattern) filepath =
      test_value (λ p. match_path fnmatch p (some filepath) true) (resolve pattern)

  unfoldable pub guarded : SelectorFields → Option Bool → Option Bool
  guarded fields result =
      if names_set property fields.unless_prop
      then some false
      else if names_unset property fields.if_prop
      then some false
      else result

  -- The `switch` over the type, of what each case gives.
  unfoldable pub select_result :
      SelectorType → (disjunction conjunction negation referenced named : Option Bool) → Option Bool
  select_result selector_or disjunction conjunction negation referenced named = disjunction
  select_result selector_and disjunction conjunction negation referenced named = conjunction
  select_result selector_not disjunction conjunction negation referenced named = negation
  select_result selector_refid disjunction conjunction negation referenced named = referenced
  select_result selector_filename disjunction conjunction negation referenced named = named
  select_result selector_include disjunction conjunction negation referenced named = named
  select_result selector_exclude disjunction conjunction negation referenced named = named
  select_result selector_other disjunction conjunction negation referenced named = some false

  -- One hop: `referenced` evaluates a named selector.
  module _ (filepath : Bytes) (referenced : Option Bytes → Option Bool) where
    unfoldable mutual
      pub matches_selector : Selector → Option Bool
      matches_selector (selector fields children) = guarded fields (
          select_result fields.selector_type (matches_any children) (matches_all children)
            (matches_none children) (referenced fields.refid) (match_name fields.name filepath))

      pub matches_any : Selectors → Option Bool
      matches_any no_selector = some false
      matches_any (selector_then child rest) =
          unless_stopped true (matches_selector child) (matches_any rest)

      pub matches_all : Selectors → Option Bool
      matches_all no_selector = some true
      matches_all (selector_then child rest) =
          unless_stopped false (matches_selector child) (matches_all rest)

      -- Only the first child counts.
      pub matches_none : Selectors → Option Bool
      matches_none no_selector = some true
      matches_none (selector_then child rest) = test_value not (matches_selector child)

  -- `selector_matches` on fuel for the hops. `selectors` looks up `selector_dict`.
  module _ (selectors : Bytes → Option Selector) (filepath : Bytes) where
    unfoldable pub hop : (Selector → Option Bool) → Option Bytes → Option Bool
    hop next none = some false
    hop next (some refid) = elim (selectors refid) [
      | none ↦ some false
      | some ref_selector ↦ next ref_selector
    ]

    unfoldable pub matches_hops : ℕ → Selector → Option Bool
    matches_hops zero child = none
    matches_hops (suc hops) child = matches_selector filepath (hop (matches_hops hops)) child

    -- A selector that is `NULL` matches nothing.
    unfoldable pub selector_matches : ℕ → Option Selector → Option Bool
    selector_matches hops none = some false
    selector_matches hops (some child) = matches_hops hops child

-- The name of a file below the directory of its fileset: `dir` is the expanded directory,
-- `fileset_dir` the one that is written.
unfoldable pub skip_slash : Bytes → Bytes
skip_slash [] = []
skip_slash (c ∷ rest) = if c == b'/' then rest else c ∷ rest

unfoldable pub relative_filename : Bytes → Bytes → Bytes → Bytes
relative_filename filename dir fileset_dir =
    if str_has_prefix filename dir
    then skip_slash (drop (length dir) filename)
    else elim (strstr filename fileset_dir) [
      | none ↦ filename
      | some pos ↦ skip_slash (drop (pos + length fileset_dir) filename)
    ]
