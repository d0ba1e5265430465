-- ===== src/Paths.antt =====
-- Path structures: `path_t` of src/gantt.h, `resolve_path` of src/path.c and `list_to_string` of
-- src/gantt.c. The path structures of the project are any dictionary. What `resolve_variables` makes
-- of a text is a parameter, with `none` where it goes on forever, and so are the files that
-- `resolve_fileset` adds; a fileset stands for itself.
pub mod References
use gantt.Prelude.{ℕ, zero, suc, Option, none, some, List, [], ◌∷◌, ◌++◌}
use gantt.Text.{Bytes}
use gantt.Dict.{Dict}

-- The types of a path element.
mutual
  pub data FilePath (Fileset : Type 0) : Type 0 where
    path_element : Bytes → FilePath Fileset
    path_fileset : Fileset → FilePath Fileset
    path_reference : Bytes → FilePath Fileset
    path_inline : PathList Fileset → FilePath Fileset

  pub data PathList (Fileset : Type 0) : Type 0 where
    nil : PathList Fileset
    cons : FilePath Fileset → PathList Fileset → PathList Fileset

-- The entries behind those that were collected before; `none` is a resolution that goes on forever.
unfoldable pub append_entries : Option (List Bytes) → Option (List Bytes) → Option (List Bytes)
append_entries none rest = none
append_entries (some entries) none = none
append_entries (some entries) (some rest) = some (entries ++ rest)

unfoldable pub one_entry : Option Bytes → Option (List Bytes)
one_entry none = none
one_entry (some entry) = some (entry ∷ [])

module _ {Fileset : Type 0} (resolve : Bytes → Option Bytes)
    (resolve_fileset : Fileset → List Bytes) where
  -- The loop of `resolve_path`; `refer` is the resolution of a reference.
  unfoldable mutual
    pub resolve_element : (Bytes → Option (List Bytes)) → FilePath Fileset → Option (List Bytes)
    resolve_element refer (path_element text) = one_entry (resolve text)
    resolve_element refer (path_fileset fileset) = some (resolve_fileset fileset)
    resolve_element refer (path_reference refid) = refer refid
    resolve_element refer (path_inline path_list) = resolve_list refer path_list

    pub resolve_list : (Bytes → Option (List Bytes)) → PathList Fileset → Option (List Bytes)
    resolve_list refer nil = some []
    resolve_list refer (cons path path_list) =
        append_entries (resolve_element refer path) (resolve_list refer path_list)

  module _ (D : Dict (PathList Fileset)) (path_dict : Dict.Table D) where
    -- A reference that names no path adds nothing. On fuel for the depth of the references.
    unfoldable pub resolve_reference : ℕ → Bytes → Option (List Bytes)
    resolve_reference zero refid = none
    resolve_reference (suc fuel) refid = elim (Dict.lookup D path_dict refid) [
      | none ↦ some []
      | some ref_path_list ↦ resolve_list (resolve_reference fuel) ref_path_list
    ]

    unfoldable pub resolve_path : ℕ → PathList Fileset → Option (List Bytes)
    resolve_path fuel path_list = resolve_list (resolve_reference fuel) path_list

-- The loop of `list_to_string`, from the first element on.
unfoldable pub join_list : Bytes → Bytes → List Bytes → Bytes
join_list delimiter acc [] = acc
join_list delimiter acc (text ∷ list) = join_list delimiter (acc ++ delimiter ++ text) list

-- `list_to_string`; an empty list gives `NULL`.
unfoldable pub list_to_string : List Bytes → Bytes → Option Bytes
list_to_string [] delimiter = none
list_to_string (text ∷ list) delimiter = some (join_list delimiter text list)
