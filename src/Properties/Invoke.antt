-- ===== src/Properties/Invoke.antt =====
-- `property_invoke` of src/property.c, with `property_read_resource`. The attributes of the task
-- are those in which the parser put them; files, archives, `curl` and the environment are
-- parameters. A `none` is a `resolve_variables` or `resolve_path` that goes on forever.
use gantt.Prelude.{
  ℕ, Bool, true, false, ◌||◌, Option, none, some, List, [], ◌∷◌, ◌++◌, if◌then◌else◌,
}
use gantt.Text.{Bytes, codes, str_split, str_strip, str_has_suffix}
use gantt.Dict.{Dict}
use gantt.Target.{is_some}
use gantt.Variables.{resolve_variables}
use gantt.Paths.{PathList, resolve_path, list_to_string}
use gantt.Properties.{maybe_append_dot, set_entry, property_read, property_parse_string}

-- What the task reads from outside.
pub record Sources : Type 0 where
  pub file_get_contents : Bytes → Option Bytes
  pub url_fetch : Bytes → Option Bytes
  pub file_is_directory : Bytes → Bool
  pub is_regular_file : Bytes → Bool
  pub archive_extract_entry : Bytes → Bytes → Option Bytes
  pub environ : List Bytes

unfoldable pub prefix_of : Option Bytes → Option Bytes
prefix_of none = none
prefix_of (some prefix) = some (maybe_append_dot prefix)

-- The loop over the environment: the name and the value of a variable.
unfoldable pub variable_entry : Bytes → Bytes → Option (Bytes × Bytes)
variable_entry env_prefix variable = elim (str_split variable (codes "=") 2) [
  | some (name ∷ value ∷ rest) ↦ some (env_prefix ++ name, value)
  | some (name ∷ []) ↦ some (env_prefix ++ name, [])
  | _ ↦ none
]

module _ (D : Dict Bytes) (sources : Sources) where
  unfoldable pub read_environ : Bytes → List Bytes → Dict.Table D → Dict.Table D
  read_environ env_prefix [] t = t
  read_environ env_prefix (variable ∷ env) t =
      read_environ env_prefix env (set_entry D t (variable_entry env_prefix variable))

  -- What an entry of the class path holds under the name of the resource.
  unfoldable pub resource_in : Bytes → Bytes → Option Bytes
  resource_in resource path =
      if Sources.file_is_directory sources path
      then (if Sources.is_regular_file sources (path ++ codes "/" ++ resource)
          then Sources.file_get_contents sources (path ++ codes "/" ++ resource)
          else none)
      else if str_has_suffix path (codes ".jar") || str_has_suffix path (codes ".zip")
      then Sources.archive_extract_entry sources path resource
      else none

  -- The loop over the class path, which ends with the first entry that has the resource.
  unfoldable pub search_resource :
      Bytes → Option Bytes → List Bytes → Dict.Table D → Bool × Dict.Table D
  search_resource resource prefix [] t = (false, t)
  search_resource resource prefix (path ∷ paths) t = elim (str_strip path) [
    | [] ↦ search_resource resource prefix paths t
    | c ∷ text ↦ elim (resource_in resource (c ∷ text)) [
      | none ↦ search_resource resource prefix paths t
      | some contents ↦ (true, property_parse_string D t contents prefix)
    ]
  ]

  unfoldable pub property_read_resource :
      Bytes → Option Bytes → Option Bytes → Dict.Table D → Bool × Dict.Table D
  property_read_resource resource none prefix t = (false, t)
  property_read_resource resource (some []) prefix t = (false, t)
  property_read_resource resource (some (c ∷ classpath)) prefix t =
      elim (str_split (c ∷ classpath) (codes ":") 0) [
        | none ↦ (false, t)
        | some paths ↦ search_resource resource prefix paths t
      ]

  module _ {Fileset : Type 0} (P : Dict (PathList Fileset)) (path_dict : Dict.Table P)
      (resolve_fileset : Fileset → List Bytes) (fuel : ℕ) (expand : Bytes → Bytes)
      (attribute : Bytes → Option Bytes) where
    -- `list_to_string(resolve_path(...))` of the path that a reference names, or `NULL`.
    unfoldable pub referred_path : Bytes → Dict.Table D → Option (Option Bytes)
    referred_path refid t = elim (Dict.lookup P path_dict refid) [
      | none ↦ some none
      | some path_list ↦
          elim (resolve_path (λ text. resolve_variables D fuel text t) resolve_fileset P path_dict
            fuel path_list) [
              | none ↦ none
              | some resolved ↦ some (list_to_string resolved (codes ":"))
            ]
    ]

    unfoldable pub set_value : Bytes → Option Bytes → Dict.Table D → Option (Bool × Dict.Table D)
    set_value name none t = none
    set_value name (some value) t = some (true, Dict.insert D t name value)

    unfoldable pub set_reference :
        Bytes → Option (Option Bytes) → Dict.Table D → Option (Bool × Dict.Table D)
    set_reference name none t = none
    set_reference name (some none) t = some (false, t)
    set_reference name (some (some path_str)) t = some (true, Dict.insert D t name path_str)

    -- `expand` is `expand_location` in the project.
    unfoldable pub expanded : Option Bytes → Option Bytes
    expanded none = none
    expanded (some value) = some (expand value)

    -- The branch for a property with a name.
    unfoldable pub define_property : Bytes → Dict.Table D → Option (Bool × Dict.Table D)
    define_property name t =
        if is_some (Dict.lookup D t name)
        then some (true, t)
        else elim (attribute (codes "value")) [
          | some value ↦ set_value name (resolve_variables D fuel value t) t
          | none ↦ elim (attribute (codes "location")) [
            | some value ↦ set_value name (expanded (resolve_variables D fuel value t)) t
            | none ↦ elim (attribute (codes "refid")) [
              | some value ↦ set_reference name (referred_path value t) t
              | none ↦ some (false, t)
            ]
          ]
        ]

    -- The class path of a resource.
    unfoldable pub class_path : Dict.Table D → Option (Option Bytes)
    class_path t = elim (attribute (codes "classpathref")) [
      | some classpathref ↦ referred_path classpathref t
      | none ↦ elim (attribute (codes "classpath")) [
        | none ↦ some none
        | some classpath ↦ elim (resolve_variables D fuel classpath t) [
          | none ↦ none
          | some text ↦ some (some text)
        ]
      ]
    ]

    unfoldable pub read_resource :
        Option (Option Bytes)
        → Option Bytes
        → Option Bytes
        → Dict.Table D
        → Option (Bool × Dict.Table D)
    read_resource none src prefix t = none
    read_resource (some classpath_str) none prefix t = none
    read_resource (some classpath_str) (some src) prefix t =
        some (property_read_resource src classpath_str prefix t)

    unfoldable pub read_file :
        Option Bytes → Option Bytes → Dict.Table D → Option (Bool × Dict.Table D)
    read_file none prefix t = none
    read_file (some src) prefix t =
        some (property_read D t (Sources.file_get_contents sources src) prefix)

    -- The branch for a property without a name.
    unfoldable pub load_properties : Option Bytes → Dict.Table D → Option (Bool × Dict.Table D)
    load_properties prefix t = elim (attribute (codes "file")) [
      | some src ↦ read_file (resolve_variables D fuel src t) prefix t
      | none ↦ elim (attribute (codes "url")) [
        | some src ↦ some (property_read D t (Sources.url_fetch sources src) prefix)
        | none ↦ elim (attribute (codes "resource")) [
          | some src ↦ read_resource (class_path t) (resolve_variables D fuel src t) prefix t
          | none ↦ elim (attribute (codes "environment")) [
            | some src ↦
                some (true, read_environ (maybe_append_dot src) (Sources.environ sources) t)
            | none ↦ some (false, t)
          ]
        ]
      ]
    ]

    -- Whether the task succeeds, and the properties.
    unfoldable pub property_invoke : Dict.Table D → Option (Bool × Dict.Table D)
    property_invoke t = elim (attribute (codes "name")) [
      | some name ↦ define_property name t
      | none ↦ load_properties (prefix_of (attribute (codes "prefix"))) t
    ]
