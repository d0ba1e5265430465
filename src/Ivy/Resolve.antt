-- ===== src/Ivy/Resolve.antt =====
-- `ivy_resolve_run` of src/ivy_resolve.c behind the walk: `finalize_revision` for each cached
-- descriptor, and the choice of a report by `ivy_module_report_find_default` of src/ivy_parse.c.
-- The settings are a parameter, and so is the file system.
pub mod Unmarked
pub mod Finalize
pub mod Reports
pub mod Run
use gantt.Prelude.{ℕ, Bool, true, false, Option, none, some, List, [], ◌∷◌, map, if◌then◌else◌}
use gantt.Text.{Bytes, codes, streq, str_strip}
use gantt.Dict.{Dict}
use gantt.Ivy.Pattern.{PatternTokens}
use gantt.Ivy.Confs.{IvyModuleId, tokens_of}
use gantt.Ivy.Resolvers.{
  ModuleDescriptor, LeafResolver, Outside, Warning, unable_to_fetch, module_id_key, revision_key,
  substitute, ivy_resolver_location, build_cache_path, ivy_fetch_to_cache,
}
use gantt.Ivy.Walk.{
  Walk, ModuleReport, RevisionReport, CacheEntry, IvyArtifact, IvySettings, walk_roots,
}

-- What is looked for in the repository of the winner.
unfoldable pub jar_tokens : IvyModuleId → PatternTokens
jar_tokens id = record {
  organisation = id.organisation;
  module_name = id.name;
  revision = id.revision;
  artifact = id.name;
  artifact_type = some (codes "jar");
  ext = some (codes "jar");
  conf = none;
  classifier = none;
}

unfoldable pub artifact_source : LeafResolver → IvyModuleId → Bytes
artifact_source resolver id =
    ivy_resolver_location resolver (substitute resolver.pattern (jar_tokens id))

unfoldable pub artifact_cache_path : Bytes → IvyModuleId → Bytes
artifact_cache_path cache_dir id =
    build_cache_path cache_dir id (codes "jars") (codes "jar") id.name

-- What the report takes over from the descriptor.
unfoldable pub with_descriptor : CacheEntry → RevisionReport → RevisionReport
with_descriptor entry rr = record rr {
  status = entry.descriptor.status;
  homepage = entry.descriptor.homepage;
  pubdate = entry.descriptor.pubdate;
  licenses = entry.descriptor.licenses;
  resolver_name = entry.resolver.name;
}

unfoldable pub with_artifact : IvyModuleId → Bytes → Bool → RevisionReport → RevisionReport
with_artifact id cache_dest fresh rr = record rr {
  artifacts =
      record { id = id; artifact_type = codes "jar"; ext = codes "jar"; cached_path = cache_dest }
      ∷ [];
  downloaded = fresh;
}

-- `mr->id.revision && strcmp(rr->revision, mr->id.revision) == 0`
unfoldable pub is_winner : Option Bytes → Bytes → Bool
is_winner none revision = false
is_winner (some best) revision = streq revision best

-- The branch for a revision that is not the winner.
unfoldable pub mark_evicted : Option Bytes → RevisionReport → RevisionReport
mark_evicted none rr = rr
mark_evicted (some best) rr = record rr { evicted = true; evicted_by_rev = some best }

-- `conf_filter`, or all configurations of the descriptor.
unfoldable pub requested : Option Bytes → List Bytes → List Bytes
requested none configurations = configurations
requested (some conf_filter) configurations =
    if streq conf_filter (codes "*") then configurations else map str_strip (tokens_of conf_filter)

module _ (D : (V : Type 0) → Dict V) (O : Outside) (cache_dir : Bytes) where
  -- The winner's artifact is fetched; the report gets it, or a warning is given.
  unfoldable pub fetch_artifact :
      CacheEntry → RevisionReport → Outside.World O → RevisionReport × Outside.World O
  fetch_artifact entry rr w =
      let cache_dest = artifact_cache_path cache_dir entry.id in
      let (ok, fresh, w') =
        ivy_fetch_to_cache O w (artifact_source entry.resolver entry.id) cache_dest
          entry.resolver.username entry.resolver.password in
      if ok
      then (with_artifact entry.id cache_dest fresh rr, w')
      else (rr, Outside.task_log O w' (unable_to_fetch entry.id))

  -- The body of `finalize_revision`, when both reports are there.
  unfoldable pub finalize_report :
      CacheEntry
      → ModuleReport
      → RevisionReport
      → Outside.World O
      → RevisionReport × Outside.World O
  finalize_report entry mr rr w =
      let rr' = with_descriptor entry rr in
      if is_winner mr.id.revision rr'.revision
      then fetch_artifact entry (record rr' { is_default = true }) w
      else (mark_evicted mr.id.revision rr', w)

  unfoldable pub store_report : Bytes → Walk D O → RevisionReport × Outside.World O → Walk D O
  store_report key3 ctx (rr, w) = record ctx {
    revision_index = Dict.insert (D RevisionReport) ctx.revision_index key3 rr;
    world = w;
  }

  unfoldable pub finalize_revision : CacheEntry → Walk D O → Walk D O
  finalize_revision entry ctx =
      let key2 = module_id_key entry.id in
      let key3 = revision_key key2 entry.id.revision in
      elim (Dict.lookup (D RevisionReport) ctx.revision_index key3) [
        | none ↦ ctx
        | some rr ↦ elim (Dict.lookup (D ModuleReport) ctx.modules key2) [
          | none ↦ ctx
          | some mr ↦ store_report key3 ctx (finalize_report entry mr rr ctx.world)
        ]
      ]

  -- `hashtable_foreach` with `finalize_revision_cb`.
  unfoldable pub finalize_all : List (Bytes × CacheEntry) → Walk D O → Walk D O
  finalize_all [] ctx = ctx
  finalize_all ((_, entry) ∷ entries) ctx = finalize_all entries (finalize_revision entry ctx)

  unfoldable pub finalize : Walk D O → Walk D O
  finalize ctx = finalize_all (Dict.entries (D CacheEntry) ctx.descriptor_cache) ctx

  -- `ivy_module_report_find_default`
  unfoldable pub find_default : Walk D O → List Bytes → Option RevisionReport
  find_default ctx [] = none
  find_default ctx (key3 ∷ revisions) =
      elim (Dict.lookup (D RevisionReport) ctx.revision_index key3) [
        | none ↦ find_default ctx revisions
        | some rr ↦ if rr.is_default then some rr else find_default ctx revisions
      ]

module _ (D : (V : Type 0) → Dict V) (O : Outside) where
  -- The tables that `ivy_resolve_run` makes.
  unfoldable pub new_walk : Outside.World O → Walk D O
  new_walk w = record {
    ancestor_path = Dict.empty (D _);
    descriptor_cache = Dict.empty (D _);
    modules = Dict.empty (D _);
    revision_index = Dict.empty (D _);
    world = w;
  }

  unfoldable pub finish : Bytes → Option (Walk D O) → Option (Walk D O)
  finish cache_dir none = none
  finish cache_dir (some ctx) = some (finalize D O cache_dir ctx)

  -- `ivy_resolve_run`, from the reading of the settings and the descriptor on; the tables that it
  -- leaves are those of the resolution.
  unfoldable pub resolve_run :
      ℕ → IvySettings → ModuleDescriptor → Option Bytes → Outside.World O → Option (Walk D O)
  resolve_run fuel settings root_md conf_filter w = finish settings.cache_dir (
      walk_roots D O settings (requested conf_filter root_md.configurations) fuel root_md.id
        root_md.dependencies (new_walk w))
