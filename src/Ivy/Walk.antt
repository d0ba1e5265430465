-- ===== src/Ivy/Walk.antt =====
-- The walk over the dependencies in src/ivy_resolve.c: `walk_ctx`, the reports of src/ivy.h and
-- `walk_module`. A pointer to a report is its key in the table that holds it. `task_log` is called
-- whether or not there is a task.
pub mod Rule
pub mod Path
pub mod Known
pub mod Fetched
pub mod Later
pub mod Latest
pub mod Winners
pub mod Terminates
use gantt.Prelude.{
  ℕ, zero, suc, Bool, true, false, Option, none, some, List, [], ◌∷◌, ◌++◌, if◌then◌else◌, Ordering,
}
use gantt.Text.{Bytes, codes}
use gantt.Dict.{Dict, update_at}
use gantt.Target.{is_some}
use gantt.Ivy.Revision.{or_empty, compare_revisions}
use gantt.Ivy.Confs.{
  IvyModuleId, IvyExclude, conf_mapping_matching_confs, is_excluded, merge_excludes,
  merge_conf_string_into_list,
}
use gantt.Ivy.Resolvers.{
  IvyDependency, IvyLicense, ModuleDescriptor, LeafResolver, Resolver, Outside, Found,
  cyclic_dependency, unable_to_resolve, module_id_key, revision_key, resolver_find_module,
}

-- `ivy_settings_t`, of which the walk reads these.
pub record IvySettings : Type 0 where
  pub default_resolver : Resolver
  pub cache_dir : Bytes

-- `ivy_caller_t`
pub record IvyCaller : Type 0 where
  pub id : IvyModuleId
  pub conf : Option Bytes

-- `ivy_artifact_t`, whose `conf` stays `NULL`.
pub record IvyArtifact : Type 0 where
  pub id : IvyModuleId
  pub artifact_type : Bytes
  pub ext : Bytes
  pub cached_path : Bytes

-- `ivy_revision_report_t`
pub record RevisionReport : Type 0 where
  pub revision : Bytes
  pub status : Option Bytes
  pub resolver_name : Option Bytes
  pub pubdate : Option Bytes
  pub homepage : Option Bytes
  pub evicted : Bool
  pub evicted_by_rev : Option Bytes
  pub is_default : Bool
  pub error : Option Bytes
  pub downloaded : Bool
  pub callers : List IvyCaller
  pub artifacts : List IvyArtifact
  pub licenses : List IvyLicense
  pub confs : List Bytes

-- What `calloc` gives, with the revision.
unfoldable pub new_revision_report : Option Bytes → RevisionReport
new_revision_report revision = record {
  revision = or_empty revision;
  status = none;
  resolver_name = none;
  pubdate = none;
  homepage = none;
  evicted = false;
  evicted_by_rev = none;
  is_default = false;
  error = none;
  downloaded = false;
  callers = [];
  artifacts = [];
  licenses = [];
  confs = [];
}

-- `ivy_module_report_t`; the reports of its revisions are pointers.
pub record ModuleReport : Type 0 where
  pub id : IvyModuleId
  pub revisions : List Bytes

-- `descriptor_cache_entry_t`
pub record CacheEntry : Type 0 where
  pub descriptor : ModuleDescriptor
  pub resolver : LeafResolver
  pub id : IvyModuleId

-- `ivy_compare_revisions(revision, best) > 0`, or there is no best one yet.
unfoldable pub is_later : Option Bytes → Option Bytes → Bool
is_later revision none = true
is_later revision (some best) = elim (compare_revisions revision (some best)) [
  | Ordering.gt ↦ true
  | _ ↦ false
]

unfoldable pub keep_latest : Option Bytes → ModuleReport → ModuleReport
keep_latest revision mr =
    if is_later revision mr.id.revision
    then record mr { id = record mr.id { revision = some (or_empty revision) } }
    else mr

unfoldable pub with_caller : IvyModuleId → Bytes → RevisionReport → RevisionReport
with_caller caller_id caller_conf rr = record rr {
  callers = rr.callers ++ record { id = caller_id; conf = some caller_conf } ∷ [];
  confs = merge_conf_string_into_list rr.confs (some caller_conf);
}

unfoldable pub has_error : Option RevisionReport → Bool
has_error none = false
has_error (some rr) = is_some rr.error

module _ (D : (V : Type 0) → Dict V) (O : Outside) where
  -- The tables of `walk_ctx`, and what lies outside.
  pub record Walk : Type 0 where
    pub ancestor_path : Dict.Table (D ℕ)
    pub descriptor_cache : Dict.Table (D CacheEntry)
    pub modules : Dict.Table (D ModuleReport)
    pub revision_index : Dict.Table (D RevisionReport)
    pub world : Outside.World O

  unfoldable pub get_or_create_module_report : IvyModuleId → Walk → Walk
  get_or_create_module_report id ctx =
      elim (Dict.lookup (D ModuleReport) ctx.modules (module_id_key id)) [
        | some _ ↦ ctx
        | none ↦ record ctx {
          modules =
              Dict.insert (D ModuleReport) ctx.modules (module_id_key id)
                (record { id = record id { revision = none }; revisions = [] });
        }
      ]

  unfoldable pub get_or_create_revision_report : Bytes → Bytes → Option Bytes → Walk → Walk
  get_or_create_revision_report key2 key3 revision ctx =
      elim (Dict.lookup (D RevisionReport) ctx.revision_index key3) [
        | some _ ↦ ctx
        | none ↦ record ctx {
          modules =
              update_at (D ModuleReport) ctx.modules key2
                (λ mr. record mr { revisions = mr.revisions ++ key3 ∷ [] });
          revision_index =
              Dict.insert (D RevisionReport) ctx.revision_index key3 (new_revision_report revision);
        }
      ]

  unfoldable pub add_caller_edge : Bytes → IvyModuleId → Bytes → Walk → Walk
  add_caller_edge key3 caller_id caller_conf ctx = record ctx {
    revision_index =
        update_at (D RevisionReport) ctx.revision_index key3 (with_caller caller_id caller_conf);
  }

  -- The beginning of `walk_module`: the reports are made and the caller is recorded.
  unfoldable pub record_edge : IvyModuleId → IvyModuleId → Bytes → Walk → Walk
  record_edge id caller_id caller_conf ctx =
      let key2 = module_id_key id in
      let key3 = revision_key key2 id.revision in
      add_caller_edge key3 caller_id caller_conf
        (get_or_create_revision_report key2 key3 id.revision (get_or_create_module_report id ctx))

  -- The branch for a descriptor that no resolver has.
  unfoldable pub mark_missing : IvyModuleId → Bytes → Walk → Walk
  mark_missing id key3 ctx =
      if has_error (Dict.lookup (D RevisionReport) ctx.revision_index key3)
      then ctx
      else record ctx {
        revision_index =
            update_at (D RevisionReport) ctx.revision_index key3
              (λ rr. record rr { error = some (codes "not found") });
        world = Outside.task_log O ctx.world (unable_to_resolve id);
      }

  unfoldable pub store_found : IvyModuleId → Bytes → Walk → Found O → Option CacheEntry × Walk
  store_found id key3 ctx (none, w) = (none, mark_missing id key3 (record ctx { world = w }))
  store_found id key3 ctx (some (md, hit_resolver), w) =
      let entry : CacheEntry = record { descriptor = md; resolver = hit_resolver; id = id } in
      (
        some entry,
        record ctx {
          descriptor_cache = Dict.insert (D CacheEntry) ctx.descriptor_cache key3 entry;
          world = w;
        },
      )

  unfoldable pub latest_wins : IvyModuleId → Walk → Walk
  latest_wins id ctx = record ctx {
    modules = update_at (D ModuleReport) ctx.modules (module_id_key id) (keep_latest id.revision);
  }

  unfoldable pub enter : Bytes → Walk → Walk
  enter key2 ctx = record ctx { ancestor_path = Dict.insert (D ℕ) ctx.ancestor_path key2 1 }

  unfoldable pub leave : Bytes → Walk → Walk
  leave key2 ctx = record ctx { ancestor_path = Dict.remove (D ℕ) ctx.ancestor_path key2 }

  abbrev pub on_path : Walk → Bytes → Bool
  on_path ctx key2 = is_some (Dict.lookup (D ℕ) ctx.ancestor_path key2)

  -- `none` is a recursion deeper than the fuel, which belongs to the model only.
  unfoldable pub and_then : Option Walk → (Walk → Option Walk) → Option Walk
  and_then none next = none
  and_then (some ctx) next = next ctx

  module _ (settings : IvySettings) (requested_confs : List Bytes) where
    -- The entry of the cache, which is filled by the resolvers.
    unfoldable pub fetch_descriptor : IvyModuleId → Walk → Option CacheEntry × Walk
    fetch_descriptor id ctx =
        let key3 = revision_key (module_id_key id) id.revision in
        elim (Dict.lookup (D CacheEntry) ctx.descriptor_cache key3) [
          | some entry ↦ (some entry, ctx)
          | none ↦
              store_found id key3 ctx
                (resolver_find_module O id settings.cache_dir settings.default_resolver ctx.world)
        ]

    -- The loop over the dependencies of a module; `walk` is the recursive call.
    unfoldable pub walk_dependencies :
        (IvyDependency → List IvyExclude → Bytes → Walk → Option Walk)
        → List IvyExclude
        → List IvyDependency
        → Walk
        → Option Walk
    walk_dependencies walk inherited_excludes [] ctx = some ctx
    walk_dependencies walk inherited_excludes (dep ∷ dependencies) ctx =
        elim (conf_mapping_matching_confs dep.conf_mapping requested_confs) [
          | none ↦ walk_dependencies walk inherited_excludes dependencies ctx
          | some matching_confs ↦ elim (is_excluded inherited_excludes dep.id) [
            | true ↦ walk_dependencies walk inherited_excludes dependencies ctx
            | false ↦
                and_then
                  (walk dep (merge_excludes inherited_excludes dep.excludes) matching_confs ctx)
                  (λ ctx'. walk_dependencies walk inherited_excludes dependencies ctx')
          ]
        ]

    -- The rest of `walk_module`, from the test of the revision on.
    unfoldable pub walk_entry :
        (IvyDependency → List IvyExclude → Bytes → Walk → Option Walk)
        → IvyModuleId
        → List IvyExclude
        → Bool
        → Option CacheEntry × Walk
        → Option Walk
    walk_entry walk id inherited_excludes recurse (none, ctx) = some ctx
    walk_entry walk id inherited_excludes false (some entry, ctx) = some (latest_wins id ctx)
    walk_entry walk id inherited_excludes true (some entry, ctx) =
        and_then
          (walk_dependencies walk inherited_excludes entry.descriptor.dependencies
            (enter (module_id_key id) (latest_wins id ctx)))
          (λ ctx'. some (leave (module_id_key id) ctx'))

    -- `walk_module`, on fuel for the depth of the recursion.
    unfoldable pub walk_module :
        ℕ → IvyModuleId → List IvyExclude → Bool → IvyModuleId → Bytes → Walk → Option Walk
    walk_module zero id inherited_excludes recurse caller_id caller_conf ctx = none
    walk_module (suc fuel) id inherited_excludes recurse caller_id caller_conf ctx =
        let ctx' = record_edge id caller_id caller_conf ctx in
        elim (on_path ctx' (module_id_key id)) [
          | true ↦ some (record ctx' {
            world = Outside.task_log O ctx'.world (cyclic_dependency (module_id_key id));
          })
          | false ↦
              walk_entry
                (λ dep excludes confs c. walk_module fuel dep.id excludes dep.transitive id confs c)
                id inherited_excludes recurse (fetch_descriptor id ctx')
        ]

    -- The loop of `ivy_resolve_run` over the dependencies of the root.
    unfoldable pub walk_roots : ℕ → IvyModuleId → List IvyDependency → Walk → Option Walk
    walk_roots fuel root_id [] ctx = some ctx
    walk_roots fuel root_id (dep ∷ dependencies) ctx =
        elim (conf_mapping_matching_confs dep.conf_mapping requested_confs) [
          | none ↦ walk_roots fuel root_id dependencies ctx
          | some matching_confs ↦
              and_then
                (walk_module fuel dep.id dep.excludes dep.transitive root_id matching_confs ctx)
                (λ ctx'. walk_roots fuel root_id dependencies ctx')
        ]
