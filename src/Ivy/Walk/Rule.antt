-- ===== src/Ivy/Walk/Rule.antt =====
-- A rule for what holds between the states before and after `walk_module` (src/ivy_resolve.c).
use mathlib.Core.Option.{some-injective}
use mathlib.Core.Path.{subst}
use gantt.Prelude.{
  arith, ap, ℕ, zero, suc, ◌≡◌, Bool, true, false, Option, none, some, List, [], ◌∷◌, Bool-cases,
  Option-cases, inl, inr, refl,
}
use gantt.Text.{Bytes}
use gantt.Dict.{Dict}
use gantt.Target.{is_some}
use gantt.Ivy.Confs.{
  IvyModuleId, IvyExclude, is_excluded, merge_excludes, conf_mapping_matching_confs,
}
use gantt.Ivy.Resolvers.{IvyDependency, Outside, module_id_key}
use gantt.Ivy.Walk.{
  Walk, CacheEntry, IvySettings, record_edge, fetch_descriptor, latest_wins, enter, leave, on_path,
  and_then, walk_dependencies, walk_entry, walk_module, walk_roots, add_caller_edge,
  get_or_create_revision_report, get_or_create_module_report,
}

module _ (D : (V : Type 0) → Dict V) (O : Outside) where
  -- Inversion of a chain that comes back.
  pub and_then-some :
      (o : Option (Walk D O)) (next : Walk D O → Option (Walk D O)) {ctx' : Walk D O}
      → and_then D O o next ≡ some ctx'
      → (ctx : Walk D O) × (o ≡ some ctx) × (next ctx ≡ some ctx')
  unfolding and_then
  and_then-some none next h = cc
  and_then-some (some ctx) next h = (ctx, refl, h)

  -- Recording an edge leaves the path alone.
  pub record_edge-path :
      (id caller_id : IvyModuleId) (caller_conf : Bytes) (ctx : Walk D O)
      → (record_edge D O id caller_id caller_conf ctx).ancestor_path ≡ ctx.ancestor_path
  unfolding record_edge add_caller_edge get_or_create_revision_report get_or_create_module_report
  record_edge-path id caller_id caller_conf ctx = ground arith

  module _ (settings : IvySettings) (requested_confs : List Bytes) where
    -- A relation that each step of the walk keeps, and that a module keeps around its dependencies.
    pub record IsKept (R : Walk D O → Walk D O → Type 0) : Type 0 where
      pub same : (a : Walk D O) → R a a
      pub trans : (a b c : Walk D O) → R a b → R b c → R a c
      pub edge :
          (id caller_id : IvyModuleId) (caller_conf : Bytes) (ctx : Walk D O)
          → R ctx (record_edge D O id caller_id caller_conf ctx)
      pub outside : (w : Outside.World O) (ctx : Walk D O) → R ctx (record ctx { world = w })
      pub missed :
          (id caller_id : IvyModuleId) (caller_conf : Bytes) (ctx ctx' : Walk D O)
          → fetch_descriptor D O settings requested_confs id
              (record_edge D O id caller_id caller_conf ctx)
            ≡ (none, ctx')
          → R ctx ctx'
      pub found :
          (id caller_id : IvyModuleId) (caller_conf : Bytes) (ctx ctx' : Walk D O)
          (entry : CacheEntry)
          → fetch_descriptor D O settings requested_confs id
              (record_edge D O id caller_id caller_conf ctx)
            ≡ (some entry, ctx')
          → R ctx (latest_wins D O id ctx')
      pub around :
          (id : IvyModuleId) (before a b : Walk D O)
          → on_path D O before (module_id_key id) ≡ false
          → R before a
          → R (enter D O (module_id_key id) a) b
          → R before (leave D O (module_id_key id) b)

    module _ (R : Walk D O → Walk D O → Type 0) (kept : IsKept R) where
      walk_dependencies-IsKept :
          (walk : IvyDependency → List IvyExclude → Bytes → Walk D O → Option (Walk D O))
          → ((dep : IvyDependency) (excludes : List IvyExclude) (confs : Bytes) (a b : Walk D O)
              → walk dep excludes confs a ≡ some b
              → R a b)
          → (excludes : List IvyExclude) (dependencies : List IvyDependency) (a b : Walk D O)
          → walk_dependencies D O settings requested_confs walk excludes dependencies a ≡ some b
          → R a b
      unfolding walk_dependencies
      walk_dependencies-IsKept walk each excludes [] a b h =
          subst (R a) (some-injective _ _ h) (kept.same a)
      walk_dependencies-IsKept walk each excludes (dep ∷ dependencies) a b h =
          let later = walk_dependencies-IsKept walk each excludes dependencies in
          elim (Option-cases (conf_mapping_matching_confs dep.conf_mapping requested_confs)) [
            | inl e ↦ later a b (rw (e, walk_dependencies) at h)
            | inr (confs, e) ↦ elim (Bool-cases (is_excluded excludes dep.id)) [
              | inl x ↦ later a b (rw (e, x, walk_dependencies) at h)
              | inr x ↦
                  let (middle, first, rest) =
                    and_then-some (walk dep (merge_excludes excludes dep.excludes) confs a) _
                      (rw (e, x, walk_dependencies) at h) in
                  kept.trans a middle b (each dep _ confs a middle first) (later middle b rest)
            ]
          ]

      walk_entry-IsKept :
          (walk : IvyDependency → List IvyExclude → Bytes → Walk D O → Option (Walk D O))
          → ((dep : IvyDependency) (excludes : List IvyExclude) (confs : Bytes) (a b : Walk D O)
              → walk dep excludes confs a ≡ some b
              → R a b)
          → (id caller_id : IvyModuleId) (caller_conf : Bytes) (excludes : List IvyExclude)
            (recurse : Bool) (ctx b middle : Walk D O) (found : Option CacheEntry)
          → on_path D O ctx (module_id_key id) ≡ false
          → fetch_descriptor D O settings requested_confs id
              (record_edge D O id caller_id caller_conf ctx)
            ≡ (found, middle)
          → walk_entry D O settings requested_confs walk id excludes recurse (found, middle)
            ≡ some b
          → R ctx b
      unfolding walk_entry
      walk_entry-IsKept walk each id caller_id caller_conf excludes recurse ctx b middle none x f
            h =
          subst (R ctx) (some-injective _ _ h) (kept.missed id caller_id caller_conf ctx middle f)
      walk_entry-IsKept walk each id caller_id caller_conf excludes false ctx b middle (some entry)
            x f h =
          subst (R ctx) (some-injective _ _ h)
            (kept.found id caller_id caller_conf ctx middle entry f)
      walk_entry-IsKept walk each id caller_id caller_conf excludes true ctx b middle (some entry) x
            f h =
          let (inner, all, left) =
            and_then-some
              (walk_dependencies D O settings requested_confs walk excludes
                entry.descriptor.dependencies
                (enter D O (module_id_key id) (latest_wins D O id middle)))
              (λ c. some (leave D O (module_id_key id) c)) h in
          subst (R ctx) (some-injective _ _ left) (
            kept.around id ctx (latest_wins D O id middle) inner x
              (kept.found id caller_id caller_conf ctx middle entry f)
              (walk_dependencies-IsKept walk each excludes entry.descriptor.dependencies _ inner
                all))

      -- What each step keeps holds between the state before a walk and that after it.
      pub walk_module-IsKept :
          (fuel : ℕ) (id : IvyModuleId) (excludes : List IvyExclude) (recurse : Bool)
          (caller_id : IvyModuleId) (caller_conf : Bytes) (ctx b : Walk D O)
          → walk_module D O settings requested_confs fuel id excludes recurse caller_id caller_conf
              ctx
            ≡ some b
          → R ctx b
      unfolding walk_module
      walk_module-IsKept zero id excludes recurse caller_id caller_conf ctx b h = cc
      walk_module-IsKept (suc fuel) id excludes recurse caller_id caller_conf ctx b h =
          let ctx' = record_edge D O id caller_id caller_conf ctx in
          elim (Bool-cases (on_path D O ctx' (module_id_key id))) [
            | inl e ↦ subst (R ctx) (some-injective _ _ (rw (e, walk_module) at h)) (
                kept.trans ctx ctx' _ (kept.edge id caller_id caller_conf ctx)
                  (kept.outside _ ctx'))
            | inr e ↦
                walk_entry-IsKept
                  (λ dep excludes confs c.
                    walk_module D O settings requested_confs fuel dep.id excludes dep.transitive id
                      confs c)
                  (λ dep excludes confs.
                    walk_module-IsKept fuel dep.id excludes dep.transitive id confs)
                  id caller_id caller_conf excludes recurse ctx b
                  (fetch_descriptor D O settings requested_confs id ctx').1
                  (fetch_descriptor D O settings requested_confs id ctx').0
                  (rw
                    (ap (λ t. is_some (Dict.lookup (D ℕ) t (module_id_key id)))
                      (record_edge-path id caller_id caller_conf ctx))
                    at e)
                  refl (rw (e, walk_module) at h)
          ]

      -- And for the loop over the dependencies of the root.
      pub walk_roots-IsKept :
          (fuel : ℕ) (root_id : IvyModuleId) (dependencies : List IvyDependency) (a b : Walk D O)
          → walk_roots D O settings requested_confs fuel root_id dependencies a ≡ some b
          → R a b
      unfolding walk_roots
      walk_roots-IsKept fuel root_id [] a b h = subst (R a) (some-injective _ _ h) (kept.same a)
      walk_roots-IsKept fuel root_id (dep ∷ dependencies) a b h =
          let later = walk_roots-IsKept fuel root_id dependencies in
          elim (Option-cases (conf_mapping_matching_confs dep.conf_mapping requested_confs)) [
            | inl e ↦ later a b (rw (e, walk_roots) at h)
            | inr (confs, e) ↦
                let (middle, first, rest) =
                  and_then-some
                    (walk_module D O settings requested_confs fuel dep.id dep.excludes
                      dep.transitive root_id confs a)
                    _ (rw (e, walk_roots) at h) in
                kept.trans a middle b
                  (walk_module-IsKept fuel dep.id dep.excludes dep.transitive root_id confs a middle
                    first)
                  (later middle b rest)
          ]
