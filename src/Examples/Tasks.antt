-- ===== src/Examples/Tasks.antt =====
-- Patterns, excludes, properties, conditions, locations, selectors and filesets.
use gantt.Prelude.{Option, ◌≡◌, refl, true, false, none, some, List, [], ◌∷◌, if◌then◌else◌, arith}
use gantt.Text.{
  Bytes, codes, streq, str_split, split_loop, count_loop, strstr, split_round, str_has_prefix,
}
use gantt.Match.{
  match_path, match_components, match_rest, match_forward, path_as_list, all_stars, ends_in_slash,
  match, modified_pattern,
}
use gantt.Dict.{Dict}
use gantt.Hashtable.Refines.{hashtable_dict}
use gantt.Ivy.Pattern.{PatternTokens, pattern_substitute}
use gantt.Ivy.Pattern.Substitute.{
  letter, token, Piece, flat, group, print_pieces, IsPattern, pieces_text, pattern_substitute-print,
}
use gantt.Ivy.Confs.{IvyExclude, IvyModuleId, tokens_of, merge_conf_string_into_list}
use gantt.Ivy.Confs.Merge.{Merged, merge_conf_string_into_list-Merged}
use gantt.Variables.{resolve_variables, resolve_loop, replace_first, scan, replacement, next_mode}
use gantt.Conditions.{no_node, Surroundings, unless_stopped, test_value, is_set}
use gantt.Conditions.Task.{
  ConditionTask, condition_met, condition_invoke, condition_invoke-only, set_chosen,
  check_attribute, check_both, check_children, chosen_value,
}
use gantt.Location.{separate, base_or, join_location, with_separator, expand_location}
use gantt.Selectors.{
  Selector, selector, no_selector, selector_include, SelectorFields, selector_matches,
  relative_filename, skip_slash,
}
use gantt.Selectors.Laws.{
  Returns, RefsBelow, reference_to, selector_matches-Returns, selector_matches_circular,
}
use gantt.Fileset.{
  Fileset, is_include, is_exclude, takes_file, second_pass, pass, selector_match_file, match_below,
  match_pattern, SomeMatches, NoneMatches, takes_file_sound,
}

abbrev tokens : PatternTokens
tokens = record {
  organisation = some (codes "com.example");
  module_name = some (codes "lib");
  revision = some (codes "1.0");
  artifact = some (codes "lib");
  artifact_type = some (codes "jar");
  ext = some (codes "jar");
  conf = none;
  classifier = none;
}

abbrev pieces : List Piece
pieces =
    flat (token (codes "ext"))
    ∷ flat (letter b'-')
    ∷ group (letter b'.' ∷ token (codes "conf") ∷ [])
    ∷ []

pieces-IsPattern : IsPattern pieces
pieces-IsPattern = (
  (omega arith, (omega arith, (omega arith, tt))),
  (
    (omega arith, omega arith),
    (
      (
        (omega arith, omega arith),
        (
          (
            (omega arith, (omega arith, (omega arith, (omega arith, tt)))),
            (omega arith, (omega arith, (omega arith, (omega arith, tt)))),
          ),
          tt,
        ),
      ),
      tt,
    ),
  ),
)

pattern_substitute-print_example :
    pattern_substitute tokens (some (print_pieces pieces)) ≡ some (pieces_text tokens pieces)
pattern_substitute-print_example = pattern_substitute-print tokens pieces pieces-IsPattern

abbrev excludes : List IvyExclude
excludes = record { organisation = codes "*"; module_name = codes "junit" } ∷ []

abbrev junit : IvyModuleId
junit = record { organisation = some (codes "org"); name = some (codes "junit"); revision = none }

merge_conf_string_into_list-Merged_example :
    Merged
      (codes "a" ∷ [])
      (tokens_of (codes "a, b"))
      (merge_conf_string_into_list (codes "a" ∷ []) (some (codes "a, b")))
merge_conf_string_into_list-Merged_example =
    merge_conf_string_into_list-Merged (codes "a" ∷ []) (codes "a, b") (λ i. i, tt)

abbrev D : Dict Bytes
D = hashtable_dict Bytes

abbrev one_property : Dict.Table D
one_property = Dict.insert D (Dict.empty D) (codes "src") (codes "java")

abbrev outside : Surroundings
outside = record {
  java_version = codes "17";
  os = codes "Linux";
  parse_version_string = λ v. (17, 0, 0);
  file_exists = λ name. false;
}

abbrev else_task : ConditionTask
else_task = record {
  attribute = λ name.
      if streq name (codes "property")
      then some (codes "src")
      else if streq name (codes "else")
      then some (codes "none")
      else none;
  children = no_node;
}

-- `resolve_variables` on the property table, with fuel for nine replacements.
abbrev resolve : Dict.Table D → Bytes → Option Bytes
resolve t v = resolve_variables D 10 v t

abbrev include_field : SelectorFields
include_field = record {
  selector_type = selector_include;
  name = some (codes "A.java");
  refid = none;
  unless_prop = none;
  if_prop = none;
}

selector_matches-Returns_example :
    Returns streq some
      (λ name. none)
      (λ id. none)
      (codes "A.java")
      (selector_matches streq some
        (λ name. none)
        (λ id. none)
        (codes "A.java")
        1
        (some (selector include_field no_selector)))
selector_matches-Returns_example =
    selector_matches-Returns streq some (λ name. none) (λ id. none) (codes "A.java") (λ id. 0) 1 0
      (selector include_field no_selector) (λ text. (text, refl)) (λ id s e. cc)
      (unfold RefsBelow in (tt, tt)) (omega arith)

abbrev self_reference : Selector
self_reference =
    reference_to streq some (λ name. none) (λ id. none) (codes "A.java") (codes "sources")

selector_matches_circular_example :
    selector_matches streq some
      (λ name. none)
      (λ id. some self_reference)
      (codes "A.java")
      100
      (some self_reference)
    ≡ none
selector_matches_circular_example =
    selector_matches_circular streq some (λ name. none) (λ id. some self_reference) (codes "A.java")
      100 (codes "sources") refl

abbrev fileset : Bytes → Fileset
fileset pattern = record {
  dir = codes "/src";
  case_sensitive = true;
  selector_list = record include_field { name = some pattern } ∷ [];
}

taken : takes_file streq some [] none (fileset (codes "A.java")) (codes "/src/A.java") ≡ some true
unfolding takes_file second_pass pass is_include unless_stopped selector_match_file match_below
    match_pattern test_value match_path match_components match_rest match_forward path_as_list
    str_split split_loop count_loop strstr is_exclude base_or expand_location join_location separate
    with_separator all_stars ends_in_slash match modified_pattern relative_filename skip_slash
    split_round str_has_prefix streq
taken = refl

takes_file_sound_example :
    SomeMatches streq some [] none
      (fileset (codes "A.java"))
      (codes "/src/A.java")
      is_include
      (record include_field { name = some (codes "A.java") } ∷ [])
    × NoneMatches streq some [] none
        (fileset (codes "A.java"))
        (codes "/src/A.java")
        is_exclude
        (record include_field { name = some (codes "A.java") } ∷ [])
takes_file_sound_example =
    takes_file_sound streq some [] none (fileset (codes "A.java")) (codes "/src/A.java") taken

else_task-invoked :
    condition_invoke outside D resolve [] none else_task one_property
    ≡ some (true, Dict.insert D one_property (codes "src") (codes "none"))
unfolding condition_invoke condition_met check_attribute check_both check_children streq
    chosen_value set_chosen test_value resolve_variables resolve_loop replace_first scan replacement
    next_mode
else_task-invoked = refl

condition_invoke-only_example :
    (true ≡ is_set (ConditionTask.attribute else_task (codes "property")))
    × (Dict.lookup D (Dict.insert D one_property (codes "src") (codes "none")) (codes "dest")
        ≡ Dict.lookup D one_property (codes "dest"))
condition_invoke-only_example =
    condition_invoke-only outside D resolve [] none else_task one_property
      (Dict.insert D one_property (codes "src") (codes "none")) true (codes "dest")
      else_task-invoked (unfold streq in (λ e. cc))
