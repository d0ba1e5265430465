-- ===== src/Ivy/Retrieve/Files.antt =====
-- The files that `ivy:retrieve` leaves (src/ivy_resolve.c).
use gantt.Prelude.{◌≡◌, true, some, ◌⊎◌, In}
use gantt.Text.{Bytes}
use gantt.Dict.{Dict}
use gantt.Ivy.Resolvers.{Outside, Warning, unable_to_retrieve}
use gantt.Ivy.Retrieve.{Storage}
use gantt.Ivy.Retrieve.Copies.{IsStorage}
use gantt.Ivy.Walk.{Walk, ModuleReport, RevisionReport, IvyArtifact}
use gantt.Ivy.Resolve.{find_default}
use gantt.Ivy.Retrieve.{destination, Retrieval, retrieve_artifact}

module _ (D : (V : Type 0) → Dict V) (O : Outside) (S : Storage O) (cache_dir : Bytes)
    (expand : Bytes → Bytes) (pattern : Bytes) (Warned : Outside.World O → Warning → Type 0)
    (storage : IsStorage O S Warned) where
  abbrev artifact_at :
      ModuleReport
      → Bytes
      → IvyArtifact
      → Retrieval D O S cache_dir expand pattern
      → Retrieval D O S cache_dir expand pattern
  artifact_at mr conf art s = retrieve_artifact D O S cache_dir expand pattern mr conf art s

  abbrev dest_of : ModuleReport → Bytes → IvyArtifact → Bytes
  dest_of mr conf art = destination D O S cache_dir expand pattern mr conf art

  -- The artifact is at its place, or there is a warning that it is not.
  abbrev pub IsAccounted : ModuleReport → Bytes → IvyArtifact → Outside.World O → Type 0
  IsAccounted mr conf art w =
      (Outside.file_exists O w (dest_of mr conf art) ≡ true)
      ⊎ Warned w (unable_to_retrieve art.cached_path (dest_of mr conf art))

  -- The artifacts of a module are accounted for.
  abbrev Retrieved : Walk D O → ModuleReport → Outside.World O → Type 0
  Retrieved ctx mr w =
      (rr : RevisionReport) (conf : Bytes) (art : IvyArtifact)
      → find_default D O cache_dir ctx mr.revisions ≡ some rr
      → In conf rr.confs
      → In art rr.artifacts
      → IsAccounted mr conf art w
