-- ===== src/Ivy/Retrieve.antt =====
-- The loop of the task `ivy:retrieve`: `retrieve_module_cb` of src/ivy_resolve.c for each module of a
-- resolution, with `copy_file_to`. The file operations of the standard library are parameters, and so
-- is `expand_location` in the project.
pub mod Copies
pub mod Files
use gantt.Prelude.{
  ℕ, zero, suc, length, take, drop, Bool, true, false, Option, none, some, List, [], ◌∷◌,
  if◌then◌else◌,
}
use gantt.Text.{Bytes}
use gantt.Dict.{Dict}
use gantt.Ivy.Pattern.{PatternTokens}
use gantt.Ivy.Resolvers.{Outside, make_parent, parent_dir, unable_to_retrieve, substitute}
use gantt.Ivy.Walk.{Walk, ModuleReport, RevisionReport, IvyArtifact}
use gantt.Ivy.Resolve.{find_default}

-- What the pattern of the task is filled in with.
unfoldable pub retrieve_tokens : ModuleReport → Bytes → IvyArtifact → PatternTokens
retrieve_tokens mr conf_name art = record {
  organisation = mr.id.organisation;
  module_name = mr.id.name;
  revision = mr.id.revision;
  artifact = mr.id.name;
  artifact_type = some art.artifact_type;
  ext = some art.ext;
  conf = some conf_name;
  classifier = none;
}

-- What `copy_file_to` uses of the standard library: all bytes of a file that can be opened for
-- reading, `fopen` for writing, and `fwrite`.
pub record Storage (O : Outside) : Type 0 where
  pub read_file : Outside.World O → Bytes → Option Bytes
  pub create_file : Outside.World O → Bytes → Bool × Outside.World O
  pub append_file : Outside.World O → Bytes → Bytes → Bool × Outside.World O

abbrev pub block_size : ℕ
block_size = 8192

module _ (O : Outside) (S : Storage O) where
  -- The loop over the blocks, which ends where one cannot be written. Each round takes a byte at
  -- least, so the length of the rest is fuel enough.
  unfoldable pub copy_blocks : ℕ → Bytes → Bytes → Outside.World O → Bool × Outside.World O
  copy_blocks zero dest content w = (true, w)
  copy_blocks (suc fuel) dest [] w = (true, w)
  copy_blocks (suc fuel) dest (b ∷ content) w =
      let written = Storage.append_file S w dest (take block_size (b ∷ content)) in
      elim written.0 [
        | true ↦ copy_blocks fuel dest (drop block_size (b ∷ content)) written.1
        | false ↦ (false, written.1)
      ]

  -- From the opened destination on.
  unfoldable pub copy_created : Bytes → Bytes → Bool × Outside.World O → Bool × Outside.World O
  copy_created content dest (false, w) = (false, w)
  copy_created content dest (true, w) = copy_blocks (length content) dest content w

  unfoldable pub copy_opened : Outside.World O → Bytes → Bytes → Bool × Outside.World O
  copy_opened w source dest = elim (Storage.read_file S w source) [
    | none ↦ (false, w)
    | some content ↦ copy_created content dest (Storage.create_file S w dest)
  ]

  -- `copy_file_to`, of a destination that is not there.
  unfoldable pub copy_file_to : Outside.World O → Bytes → Bytes → Bool × Outside.World O
  copy_file_to w source dest = copy_opened (make_parent O w (parent_dir dest)) source dest

module _ (D : (V : Type 0) → Dict V) (O : Outside) (S : Storage O) (cache_dir : Bytes)
    (expand : Bytes → Bytes) (pattern : Bytes) where
  unfoldable pub destination : ModuleReport → Bytes → IvyArtifact → Bytes
  destination mr conf_name art = expand (substitute pattern (retrieve_tokens mr conf_name art))

  -- `rctx->count`, and what lies outside.
  abbrev pub Retrieval : Type 0
  Retrieval = ℕ × Outside.World O

  unfoldable pub retrieve_copied : Bytes → Bytes → ℕ → Bool × Outside.World O → Retrieval
  retrieve_copied cached_path dest count (true, w) = (suc count, w)
  retrieve_copied cached_path dest count (false, w) =
      (count, Outside.task_log O w (unable_to_retrieve cached_path dest))

  unfoldable pub retrieve_artifact : ModuleReport → Bytes → IvyArtifact → Retrieval → Retrieval
  retrieve_artifact mr conf_name art (count, w) =
      if Outside.file_exists O w (destination mr conf_name art)
      then (suc count, w)
      else retrieve_copied art.cached_path (destination mr conf_name art) count
          (copy_file_to O S w art.cached_path (destination mr conf_name art))

  unfoldable pub retrieve_artifacts :
      ModuleReport → Bytes → List IvyArtifact → Retrieval → Retrieval
  retrieve_artifacts mr conf_name [] s = s
  retrieve_artifacts mr conf_name (art ∷ artifacts) s =
      retrieve_artifacts mr conf_name artifacts (retrieve_artifact mr conf_name art s)

  unfoldable pub retrieve_confs :
      ModuleReport → List IvyArtifact → List Bytes → Retrieval → Retrieval
  retrieve_confs mr artifacts [] s = s
  retrieve_confs mr artifacts (conf_name ∷ confs) s =
      retrieve_confs mr artifacts confs (retrieve_artifacts mr conf_name artifacts s)

  -- `retrieve_module_cb`
  unfoldable pub retrieve_module : Walk D O → ModuleReport → Retrieval → Retrieval
  retrieve_module ctx mr s = elim (find_default D O cache_dir ctx mr.revisions) [
    | none ↦ s
    | some rr ↦ retrieve_confs mr rr.artifacts rr.confs s
  ]

  unfoldable pub retrieve_modules : Walk D O → List (Bytes × ModuleReport) → Retrieval → Retrieval
  retrieve_modules ctx [] s = s
  retrieve_modules ctx ((key2, mr) ∷ modules) s =
      retrieve_modules ctx modules (retrieve_module ctx mr s)

  -- `hashtable_foreach` over the modules of a resolution.
  unfoldable pub retrieve_all : Walk D O → Retrieval → Retrieval
  retrieve_all ctx s = retrieve_modules ctx (Dict.entries (D ModuleReport) ctx.modules) s
