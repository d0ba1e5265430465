-- ===== src/Examples/Inputs.antt =====
-- Path structures that refer to one another, the `property` task and sources to compile.
use mathlib.Core.Option.{some-injective}
use mathlib.Core.Path.{subst}
use gantt.Prelude.{
  ℕ, ◌≡◌, refl, Bool, true, false, Option, none, some, List, [], ◌∷◌, arith, inl, inr,
  if◌then◌else◌, sym, ◌∙◌, Bool-cases,
}
use gantt.Text.{Bytes, codes, streq, str_has_prefix}
use gantt.Dict.{Dict}
use gantt.Target.{is_some}
use gantt.Hashtable.Refines.{hashtable_dict}
use gantt.Paths.{PathList, nil, cons, path_element, path_reference, path_inline, resolve_path}
use gantt.Paths.References.{
  IsEndless, IsRanked, AllRankBelow, resolve_path-circular, resolve_path-total,
}
use gantt.Properties.Invoke.{
  Sources, property_invoke, define_property, load_properties, read_environ,
}
use gantt.Properties.Task.{property_invoke-Keeps, property_invoke-name}
use gantt.Javac.{
  Files, needs_compilation, needs_relative, relative_path, base_name, dir_name, split_last,
  ends_with, class_file_of,
}
use gantt.Properties.{maybe_append_dot}
use gantt.Match.{ends_in_slash}
use gantt.Javac.Skipped.{HasNewer, needs_compilation_sound}

abbrev P : Dict (PathList Bytes)
P = hashtable_dict (PathList Bytes)

abbrev resolve : Bytes → Option Bytes
resolve text = some text

abbrev no_files : Bytes → List Bytes
no_files fileset = []

-- The path "cp" refers to itself, behind an element of its own.
abbrev to_cp : PathList Bytes
to_cp = cons (path_element (codes "lib")) (cons (path_reference (codes "cp")) nil)

abbrev endless_paths : Dict.Table P
endless_paths = Dict.insert P (Dict.empty P) (codes "cp") to_cp

cp-IsEndless : IsEndless resolve no_files P endless_paths (λ k. k ≡ codes "cp")
unfolding streq
cp-IsEndless refid e = (
  to_cp,
  codes "cp",
  subst (λ k. Dict.lookup P endless_paths k ≡ some to_cp) (sym e)
      (Dict.lookup-insert P (Dict.empty P) (codes "cp") (codes "cp") to_cp),
  inr (inl refl),
  refl,
)

resolve_path-circular_example :
    resolve_path resolve no_files P endless_paths 100 (cons (path_inline to_cp) nil) ≡ none
resolve_path-circular_example =
    resolve_path-circular resolve no_files P endless_paths (λ k. k ≡ codes "cp") cp-IsEndless
      (codes "cp") refl (cons (path_inline to_cp) nil) (inl (inr (inl refl))) 100

abbrev plain : PathList Bytes
plain = cons (path_element (codes "lib")) nil

abbrev plain_paths : Dict.Table P
plain_paths = Dict.insert P (Dict.empty P) (codes "cp") plain

found :
    (refid : Bytes) → streq (codes "cp") refid ≡ true → Dict.lookup P plain_paths refid ≡ some plain
found refid e = rw (Dict.lookup-insert P (Dict.empty P) (codes "cp") refid plain, e) refl

plain-IsRanked : IsRanked resolve no_files P plain_paths (λ k. 0)
plain-IsRanked refid path_list h = elim (Bool-cases (streq (codes "cp") refid)) [
  | inl e ↦
      subst (λ (l : PathList Bytes). AllRankBelow resolve no_files P plain_paths (λ k. 0) 0 l)
        (some-injective _ _ (sym (found refid e) ∙ h)) ((codes "lib", refl), tt)
  | inr e ↦ absurd (
      cc (
        Dict.lookup-insert P (Dict.empty P) (codes "cp") refid plain,
        Dict.lookup-empty P refid,
        e,
        h,
      ))
]

resolve_path-total_example :
    (entries : List Bytes) × (resolve_path resolve no_files P plain_paths 1
        (cons (path_reference (codes "cp")) (cons (path_inline plain) nil))
      ≡ some entries)
resolve_path-total_example =
    resolve_path-total resolve no_files P plain_paths (λ k. 0) plain-IsRanked 1
      (cons (path_reference (codes "cp")) (cons (path_inline plain) nil))
      (omega arith, (((codes "lib", refl), tt), tt))

abbrev D : Dict Bytes
D = hashtable_dict Bytes

abbrev one_property : Dict.Table D
one_property = Dict.insert D (Dict.empty D) (codes "env.HOME") (codes "/home")

one_property-home : Dict.lookup D one_property (codes "env.HOME") ≡ some (codes "/home")
unfolding streq
one_property-home =
    Dict.lookup-insert D (Dict.empty D) (codes "env.HOME") (codes "env.HOME") (codes "/home")

abbrev sources : Sources
sources = record {
  file_get_contents = λ path. none;
  url_fetch = λ url. none;
  file_is_directory = λ path. false;
  is_regular_file = λ path. false;
  archive_extract_entry = λ archive name. none;
  environ = codes "HOME=/root" ∷ codes "USER=root" ∷ [];
}

-- `<property environment="env"/>`
abbrev environment : Bytes → Option Bytes
environment k = if streq k (codes "environment") then some (codes "env") else none

-- `<property name="env.HOME"/>`
abbrev name_only : Bytes → Option Bytes
name_only k = if streq k (codes "name") then some (codes "src") else none

abbrev invoke : (Bytes → Option Bytes) → Dict.Table D → Option (Bool × Dict.Table D)
invoke attribute t = property_invoke D sources P plain_paths no_files 9 (λ text. text) attribute t

abbrev with_environment : Dict.Table D
with_environment = read_environ D sources (codes "env.") sources.environ one_property

environment-read : invoke environment one_property ≡ some (true, with_environment)
unfolding property_invoke load_properties maybe_append_dot streq ends_in_slash
environment-read = refl

property_invoke-Keeps_example :
    Dict.lookup D with_environment (codes "env.HOME") ≡ some (codes "/home")
property_invoke-Keeps_example =
    property_invoke-Keeps D sources P plain_paths no_files 9 (λ text. text) environment one_property
      with_environment true environment-read (codes "env.HOME") (codes "/home") one_property-home

src-none : Dict.lookup D one_property (codes "src") ≡ none
unfolding streq
src-none =
    Dict.lookup-insert D (Dict.empty D) (codes "env.HOME") (codes "src") (codes "/home")
    ∙ Dict.lookup-empty D (codes "src")

name_only-name : name_only (codes "name") ≡ some (codes "src")
unfolding streq
name_only-name = refl

name_only-fails : invoke name_only one_property ≡ some (false, one_property)
unfolding property_invoke define_property streq is_some
name_only-fails = rw (src-none, is_some) refl

property_invoke-name_example :
    (false ≡ is_some (Dict.lookup D one_property (codes "src")))
    × ((j : Bytes)
        → streq (codes "src") j ≡ false
        → Dict.lookup D one_property j ≡ Dict.lookup D one_property j)
    × (false ≡ false → one_property ≡ one_property)
property_invoke-name_example =
    property_invoke-name D sources P plain_paths no_files 9 (λ text. text) name_only (codes "src")
      one_property one_property false name_only-name name_only-fails

-- A source at time 3, and a class at time 5.
abbrev files : Files
files = record {
  mtime = λ path.
      if streq path (codes "src/A.java")
      then some 3
      else if streq path (codes "out//A.class")
      then some 5
      else none;
  is_directory = λ path. true;
  readdir = λ path. some (codes "A.class" ∷ []);
}

class-newer :
    needs_compilation files (codes "src/A.java") (codes "src") (some (codes "out")) ≡ false
unfolding needs_compilation needs_relative relative_path base_name dir_name split_last ends_with
    class_file_of streq str_has_prefix ends_in_slash
class-newer = refl

needs_compilation_sound_example :
    (dest : Bytes) × (m : ℕ) × (some (codes "out") ≡ some dest)
    × (Files.mtime files (codes "src/A.java") ≡ some m)
    × HasNewer files dest m
needs_compilation_sound_example =
    needs_compilation_sound files (codes "src/A.java") (codes "src") (some (codes "out"))
      class-newer
