-- ===== src/Ivy/Confs.antt =====
-- The helpers of src/ivy_resolve.c on configurations and excludes.
use gantt.Prelude.{
  Bool, true, false, ◌||◌, ◌&&◌, Option, none, some, List, [], ◌∷◌, ◌++◌, if◌then◌else◌, map, take,
}
pub mod Merge
use gantt.Text.{Bytes, codes, streq, str_split, str_strip, strstr}

-- Some token, stripped of white space, is the text.
unfoldable pub has_token : Bytes → List Bytes → Bool
has_token name [] = false
has_token name (tok ∷ tokens) = streq (str_strip tok) name || has_token name tokens

-- The tokens of a comma-joined list.
unfoldable pub tokens_of : Bytes → List Bytes
tokens_of text = elim (str_split text (codes ",") 0) [ none ↦ [] | some tokens ↦ tokens ]

-- What stands before "->", or the whole mapping.
unfoldable pub mapping_lhs : Bytes → Bytes
mapping_lhs conf_mapping = elim (strstr conf_mapping (codes "->")) [
  | none ↦ conf_mapping
  | some arrow ↦ take arrow conf_mapping
]

-- A requested configuration that the mapping maps from.
unfoldable pub maps_from : Option Bytes → Bytes → Bool
maps_from none rc = true
maps_from (some conf_mapping) rc =
    has_token (codes "*") (tokens_of (mapping_lhs conf_mapping))
    || has_token rc (tokens_of (mapping_lhs conf_mapping))

unfoldable pub matching : Option Bytes → List Bytes → List Bytes
matching conf_mapping [] = []
matching conf_mapping (rc ∷ requested_confs) =
    if maps_from conf_mapping rc
    then rc ∷ matching conf_mapping requested_confs
    else matching conf_mapping requested_confs

-- The matches with a comma between them.
unfoldable pub join_confs : Bytes → List Bytes → Bytes
join_confs result [] = result
join_confs result (rc ∷ confs) = join_confs (result ++ (codes "," ++ rc)) confs

-- `conf_mapping_matching_confs`
unfoldable pub conf_mapping_matching_confs : Option Bytes → List Bytes → Option Bytes
conf_mapping_matching_confs conf_mapping requested_confs =
    elim (matching conf_mapping requested_confs) [
      | [] ↦ none
      | rc ∷ confs ↦ some (join_confs rc confs)
    ]

-- `ivy_exclude_t` without its configuration, which these functions do not read; the parser puts
-- "*" in the place of a `NULL`.
pub record IvyExclude : Type 0 where
  pub organisation : Bytes
  pub module_name : Bytes

-- `ivy_module_id_t`
pub record IvyModuleId : Type 0 where
  pub organisation : Option Bytes
  pub name : Option Bytes
  pub revision : Option Bytes

unfoldable pub field_matches : Bytes → Option Bytes → Bool
field_matches pattern none = streq pattern (codes "*")
field_matches pattern (some value) = streq pattern (codes "*") || streq pattern value

unfoldable pub exclude_matches : IvyExclude → IvyModuleId → Bool
exclude_matches ex id =
    field_matches ex.organisation id.organisation && field_matches ex.module_name id.name

unfoldable pub is_excluded : List IvyExclude → IvyModuleId → Bool
is_excluded [] id = false
is_excluded (ex ∷ excludes) id = exclude_matches ex id || is_excluded excludes id

-- The copying of one list behind what was copied before.
unfoldable pub append_excludes : List IvyExclude → List IvyExclude → List IvyExclude
append_excludes result [] = result
append_excludes result (ex ∷ rest) = append_excludes (result ++ ex ∷ []) rest

unfoldable pub merge_excludes : List IvyExclude → List IvyExclude → List IvyExclude
merge_excludes a b = append_excludes (append_excludes [] a) b

-- The loop that looks for a configuration in the list.
unfoldable pub has_conf : Bytes → List Bytes → Bool
has_conf tok [] = false
has_conf tok (conf ∷ list) = streq conf tok || has_conf tok list

unfoldable pub merge_tokens : List Bytes → List Bytes → List Bytes
merge_tokens list [] = list
merge_tokens list (raw ∷ tokens) =
    let tok = str_strip raw in
    merge_tokens (if has_conf tok list then list else list ++ tok ∷ []) tokens

-- `merge_conf_string_into_list`
unfoldable pub merge_conf_string_into_list : List Bytes → Option Bytes → List Bytes
merge_conf_string_into_list list none = list
merge_conf_string_into_list list (some comma_joined) = merge_tokens list (tokens_of comma_joined)
