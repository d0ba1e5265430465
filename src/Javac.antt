-- ===== src/Javac.antt =====
-- Which sources `javac` compiles again: `has_newer_class_in_dir` and `needs_compilation` of
-- src/javac.c, on a system whose separator is "/". What `stat` and `readdir` answer is a parameter;
-- `none` is their failure.
pub mod Skipped
use gantt.Prelude.{
  ℕ, zero, suc, ◌+◌, ◌-◌, Bool, true, false, ◌&&◌, ◌||◌, not, Option, none, some, List, [], ◌∷◌,
  ◌++◌, ◌==◌, ltb, leb, if◌then◌else◌, length, drop, take, get_or,
}
use gantt.Text.{Bytes, codes, streq, str_has_prefix}
use gantt.Match.{ends_in_slash}

pub record Files : Type 0 where
  pub mtime : Bytes → Option ℕ
  pub is_directory : Bytes → Bool
  pub readdir : Bytes → Option (List Bytes)

-- `strrchr` with the separator: what stands before the last one, and behind it.
unfoldable pub split_last : Bytes → Option (Bytes × Bytes)
split_last [] = none
split_last (c ∷ path) = elim (split_last path) [
  | some (dir, base) ↦ some (c ∷ dir, base)
  | none ↦ if c == b'/' then some ([], path) else none
]

-- The rest of the text is long enough and ends so.
unfoldable pub ends_with : Bytes → Bytes → Bool
ends_with name suffix =
    ltb (length suffix) (length name) && streq (drop (length name - length suffix) name) suffix

-- `NULL` is no restriction; a class or one nested in it.
unfoldable pub has_class_prefix : Option Bytes → Bytes → Bool
has_class_prefix none name = true
has_class_prefix (some prefix) name =
    str_has_prefix name prefix
    && (length name == length prefix + 6 || get_or name (length prefix) 0 == b'$')

unfoldable pub at_least : Option ℕ → ℕ → Bool
at_least none mtime = false
at_least (some t) mtime = leb mtime t

module _ (files : Files) where
  -- The loop over the entries of a directory.
  unfoldable pub some_newer : Bytes → ℕ → Option Bytes → List Bytes → Bool
  some_newer dir_path source_mtime class_prefix [] = false
  some_newer dir_path source_mtime class_prefix (name ∷ entries) =
      ends_with name (codes ".class")
        && has_class_prefix class_prefix name
        && at_least (Files.mtime files (dir_path ++ codes "/" ++ name)) source_mtime
      || some_newer dir_path source_mtime class_prefix entries

  unfoldable pub has_newer_class_in_dir : Bytes → ℕ → Option Bytes → Bool
  has_newer_class_in_dir dir_path source_mtime class_prefix = elim (Files.readdir files dir_path) [
    | none ↦ false
    | some entries ↦ some_newer dir_path source_mtime class_prefix entries
  ]

  -- The loop over the directories in the directory of a package.
  unfoldable pub some_subdir_newer : Bytes → ℕ → List Bytes → Bool
  some_subdir_newer package_dir source_mtime [] = false
  some_subdir_newer package_dir source_mtime (name ∷ entries) =
      not (str_has_prefix name (codes "."))
        && Files.is_directory files (package_dir ++ codes "/" ++ name)
        && has_newer_class_in_dir (package_dir ++ codes "/" ++ name) source_mtime none
      || some_subdir_newer package_dir source_mtime entries

  unfoldable pub has_newer_below : Bytes → ℕ → Bool
  has_newer_below package_dir source_mtime = elim (Files.readdir files package_dir) [
    | none ↦ false
    | some entries ↦ some_subdir_newer package_dir source_mtime entries
  ]

-- The name behind the last separator.
unfoldable pub base_name : Bytes → Bytes
base_name path = elim (split_last path) [ none ↦ path | some (dir, base) ↦ base ]

-- The directory before it, or "".
unfoldable pub dir_name : Bytes → Bytes
dir_name path = elim (split_last path) [ none ↦ [] | some (dir, base) ↦ dir ]

unfoldable pub relative_path : Bytes → Bytes → Bytes
relative_path source_file src_dir =
    if str_has_prefix source_file src_dir
    then drop
        (if ltb 0 (length src_dir) && not (ends_in_slash src_dir)
          then length src_dir + 1
          else length src_dir)
        source_file
    else base_name source_file

unfoldable pub class_file_of : Bytes → Bytes → Bytes
class_file_of package_dir name =
    package_dir ++ codes "/" ++ take (length name - 5) name ++ codes ".class"

module _ (files : Files) where
  -- From the relative path on.
  unfoldable pub needs_relative : Bytes → Bytes → ℕ → Bool
  needs_relative relative dest_dir source_mtime =
      let name = base_name relative in
      let package_dir = dest_dir ++ codes "/" ++ dir_name relative in
      if streq name (codes "package-info.java")
      then not (
          has_newer_class_in_dir files package_dir source_mtime none
          || has_newer_below files package_dir source_mtime)
      else if ends_with name (codes ".java")
      then elim (Files.mtime files (class_file_of package_dir name)) [
        | none ↦ not (has_newer_class_in_dir files package_dir source_mtime none)
        | some class_mtime ↦ ltb class_mtime source_mtime
      ]
      else true

  unfoldable pub needs_compilation : Bytes → Bytes → Option Bytes → Bool
  needs_compilation source_file src_dir none = true
  needs_compilation source_file src_dir (some dest_dir) = elim (Files.mtime files source_file) [
    | none ↦ true
    | some source_mtime ↦ needs_relative (relative_path source_file src_dir) dest_dir source_mtime
  ]
