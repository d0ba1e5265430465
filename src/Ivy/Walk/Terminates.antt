-- ===== src/Ivy/Walk/Terminates.antt =====
-- The depth of the recursion of `walk_module` (src/ivy_resolve.c): each call under way, but for the
-- last, holds a module that is not under way above it.
use gantt.Prelude.{
  ℕ, zero, suc, ◌<◌, ◌≤◌, ◌≡◌, refl, ◌∙◌, Bool, true, false, Option, none, some, List, [], ◌∷◌,
  arith, length, Option-cases, Bool-cases, inl, inr, sym,
}
use gantt.Text.{Bytes, streq_refl}
use gantt.Dict.{Dict}
use gantt.Target.Order.{In}
use gantt.Ivy.Confs.{
  IvyModuleId, IvyExclude, is_excluded, merge_excludes, conf_mapping_matching_confs,
}
use gantt.Ivy.Resolvers.{IvyDependency, Outside, module_id_key}
use gantt.Ivy.Walk.{
  Walk, CacheEntry, IvySettings, record_edge, fetch_descriptor, latest_wins, enter, on_path,
  and_then, walk_dependencies, walk_entry, walk_module, walk_roots,
}
use gantt.Ivy.Walk.Rule.{IsKept, walk_module-IsKept, walk_roots-IsKept}
use gantt.Ivy.Walk.Path.{
  Fetched, Fetched-of, SamePath, SamePath-IsKept, SamePath-of, Fetched-path, on_path-enter,
}
use gantt.Ivy.Walk.Known.{
  unvisited, unvisited-le-length, unvisited_mono, unvisited-lt, Within, IsFinite, IsKnown,
  IsKnown-Fetched, Within-Fetched, IsKnown-record_edge, Known, Known-IsKept,
}

module _ (D : (V : Type 0) → Dict V) (O : Outside) (settings : IvySettings)
    (requested_confs : List Bytes) (keys : List Bytes) where
  -- The walk came back.
  abbrev pub Returns : Option (Walk D O) → Type 0
  Returns o = (ctx' : Walk D O) × (o ≡ some ctx')

  abbrev left_over : Walk D O → ℕ
  left_over ctx = unvisited keys (on_path D O ctx)

  left_over-SamePath :
      (a b : Walk D O) → SamePath D O settings requested_confs a b → left_over b ≤ left_over a
  left_over-SamePath a b p = unvisited_mono keys _ _ (λ k h. p k ∙ h)

  left_over-enter :
      (id : IvyModuleId) (a b : Walk D O)
      → In (module_id_key id) keys
      → on_path D O a (module_id_key id) ≡ false
      → SamePath D O settings requested_confs a b
      → left_over (enter D O (module_id_key id) b) < left_over a
  left_over-enter id a b i x p =
      unvisited-lt keys (module_id_key id) _ _ i
        (λ k h. ground (arith, on_path-enter D O (module_id_key id) k b, p k)) x
        (ground (
          arith,
          on_path-enter D O (module_id_key id) (module_id_key id) b,
          streq_refl (module_id_key id),
        ))

  and_then-Returns :
      (o : Option (Walk D O)) (next : Walk D O → Option (Walk D O))
      → Returns o
      → ((ctx : Walk D O) → o ≡ some ctx → Returns (next ctx))
      → Returns (and_then D O o next)
  unfolding and_then
  and_then-Returns o next (ctx, e) h = rw (e, and_then) (h ctx e)

  -- What the loop over dependencies needs of the recursive call.
  abbrev Good :
      ℕ → (IvyDependency → List IvyExclude → Bytes → Walk D O → Option (Walk D O)) → Type 0
  Good fuel walk =
      (dep : IvyDependency) (excludes : List IvyExclude) (confs : Bytes) (c : Walk D O)
      → In (module_id_key dep.id) keys
      → (IsKnown D O settings requested_confs keys) c
      → left_over c < fuel
      → Returns (walk dep excludes confs c)
        × ((b : Walk D O)
            → walk dep excludes confs c ≡ some b
            → SamePath D O settings requested_confs c b
              × (IsKnown D O settings requested_confs keys) b)

  dependencies-Returns :
      (fuel : ℕ) (walk : IvyDependency → List IvyExclude → Bytes → Walk D O → Option (Walk D O))
      → Good fuel walk
      → (excludes : List IvyExclude) (dependencies : List IvyDependency) (c : Walk D O)
      → (Within D O settings requested_confs keys) dependencies
      → (IsKnown D O settings requested_confs keys) c
      → left_over c < fuel
      → Returns (walk_dependencies D O settings requested_confs walk excludes dependencies c)
  unfolding walk_dependencies
  dependencies-Returns fuel walk good excludes [] c i known h = (c, refl)
  dependencies-Returns fuel walk good excludes (dep ∷ dependencies) c i known h =
      elim (Option-cases (conf_mapping_matching_confs dep.conf_mapping requested_confs)) [
        | inl e ↦
            rw (e, walk_dependencies)
              (dependencies-Returns fuel walk good excludes dependencies c (λ d j. i d (inr j))
                known h)
        | inr (confs, e) ↦ elim (Bool-cases (is_excluded excludes dep.id)) [
          | inl x ↦
              rw (e, x, walk_dependencies)
                (dependencies-Returns fuel walk good excludes dependencies c (λ d j. i d (inr j))
                  known h)
          | inr x ↦
              rw (e, x, walk_dependencies)
                (let (returns, keeps) =
                    good dep (merge_excludes excludes dep.excludes) confs c (i dep (inl refl)) known
                      h in
                  and_then-Returns _ _ returns (λ b first.
                    dependencies-Returns fuel walk good excludes dependencies b (λ d j. i d (inr j))
                      (keeps b first).1 (omega (arith, left_over-SamePath c b (keeps b first).0))))
        ]
      ]

  entry-Returns :
      (fuel : ℕ) (walk : IvyDependency → List IvyExclude → Bytes → Walk D O → Option (Walk D O))
      → Good fuel walk
      → (IsFinite D O settings requested_confs keys)
      → (id : IvyModuleId) (excludes : List IvyExclude) (recurse : Bool)
        (ctx ctx' middle : Walk D O) (found : Option CacheEntry)
      → Fetched D O settings requested_confs id ctx' found middle
      → In (module_id_key id) keys
      → on_path D O ctx (module_id_key id) ≡ false
      → SamePath D O settings requested_confs ctx middle
      → (IsKnown D O settings requested_confs keys) ctx'
      → left_over ctx < suc fuel
      → Returns (walk_entry D O settings requested_confs walk id excludes recurse (found, middle))
  unfolding walk_entry latest_wins
  entry-Returns fuel walk good finite id excludes recurse ctx ctx' middle none f i x p known h =
      (middle, refl)
  entry-Returns fuel walk good finite id excludes false ctx ctx' middle (some entry) f i x p known
        h =
      (_, refl)
  entry-Returns fuel walk good finite id excludes true ctx ctx' middle (some entry) f i x p known
        h =
      and_then-Returns _ _
        (dependencies-Returns fuel walk good excludes entry.descriptor.dependencies
          (enter D O (module_id_key id) (latest_wins D O id middle))
          ((Within-Fetched D O settings requested_confs keys) finite f known)
          (unfold enter in (IsKnown-Fetched D O settings requested_confs keys) finite f known)
          (omega (arith, left_over-enter id ctx (latest_wins D O id middle) i x p)))
        (λ b e. (_, refl))

  invoke-Returns :
      (fuel : ℕ) (id : IvyModuleId) (excludes : List IvyExclude) (recurse : Bool)
      (caller_id : IvyModuleId) (caller_conf : Bytes) (ctx : Walk D O)
      → (IsFinite D O settings requested_confs keys)
      → In (module_id_key id) keys
      → (IsKnown D O settings requested_confs keys) ctx
      → left_over ctx < fuel
      → Returns (
          walk_module D O settings requested_confs fuel id excludes recurse caller_id caller_conf
            ctx)
  unfolding walk_module
  invoke-Returns zero id excludes recurse caller_id caller_conf ctx finite i known h =
      absurd (omega arith)
  invoke-Returns (suc fuel) id excludes recurse caller_id caller_conf ctx finite i known h =
      let ctx' = record_edge D O id caller_id caller_conf ctx in
      let same = (SamePath-IsKept D O settings requested_confs).edge id caller_id caller_conf ctx in
      elim (Bool-cases (on_path D O ctx' (module_id_key id))) [
        | inl e ↦ rw (e, walk_module) (_, refl)
        | inr e ↦
            rw (e, walk_module)
              (entry-Returns fuel
                (λ dep excludes confs c.
                  walk_module D O settings requested_confs fuel dep.id excludes dep.transitive id
                    confs c)
                (λ dep excludes confs c j k l. (
                  invoke-Returns fuel dep.id excludes dep.transitive id confs c finite j k l,
                  λ b w. (
                    walk_module-IsKept D O settings requested_confs _
                        (SamePath-IsKept D O settings requested_confs) fuel dep.id excludes
                        dep.transitive id confs c b w,
                    walk_module-IsKept D O settings requested_confs _
                        ((Known-IsKept D O settings requested_confs keys) finite) fuel dep.id
                        excludes dep.transitive id confs c b w k,
                  ),
                ))
                finite id excludes recurse ctx ctx' _ _
                (Fetched-of D O settings requested_confs id ctx' _ _ refl) i
                (sym (same (module_id_key id)) ∙ e)
                (λ k.
                  SamePath-of D O settings requested_confs ctx'
                    (fetch_descriptor D O settings requested_confs id ctx').1
                    (Fetched-path D O settings requested_confs
                      (Fetched-of D O settings requested_confs id ctx' _ _ refl))
                    k
                  ∙ same k)
                ((IsKnown-record_edge D O settings requested_confs keys) id caller_id caller_conf
                  ctx known)
                h)
      ]

  roots-Returns :
      (fuel : ℕ) (root_id : IvyModuleId) (dependencies : List IvyDependency) (ctx : Walk D O)
      → (IsFinite D O settings requested_confs keys)
      → (Within D O settings requested_confs keys) dependencies
      → (IsKnown D O settings requested_confs keys) ctx
      → left_over ctx < fuel
      → Returns (walk_roots D O settings requested_confs fuel root_id dependencies ctx)
  unfolding walk_roots
  roots-Returns fuel root_id [] ctx finite i known h = (ctx, refl)
  roots-Returns fuel root_id (dep ∷ dependencies) ctx finite i known h =
      elim (Option-cases (conf_mapping_matching_confs dep.conf_mapping requested_confs)) [
        | inl e ↦
            rw (e, walk_roots)
              (roots-Returns fuel root_id dependencies ctx finite (λ d j. i d (inr j)) known h)
        | inr (confs, e) ↦
            rw (e, walk_roots)
              (and_then-Returns _ _
                (invoke-Returns fuel dep.id dep.excludes dep.transitive root_id confs ctx finite
                  (i dep (inl refl)) known h)
                (λ b first.
                  let kept =
                    λ (R : Walk D O → Walk D O → Type 0)
                        (k : IsKept D O settings requested_confs R).
                      walk_module-IsKept D O settings requested_confs R k fuel dep.id dep.excludes
                        dep.transitive root_id confs ctx b first in
                  roots-Returns fuel root_id dependencies b finite (λ d j. i d (inr j))
                    (kept (Known D O settings requested_confs keys)
                      ((Known-IsKept D O settings requested_confs keys) finite) known)
                    (omega (
                      arith,
                      left_over-SamePath ctx b (
                          kept (SamePath D O settings requested_confs)
                            (SamePath-IsKept D O settings requested_confs)),
                    ))))
      ]

  -- Where the modules that the resolvers know depend on modules of a finite list only, the walk over
  -- the dependencies of the root comes back, whatever cycles there are: a recursion one deeper than
  -- the list is long is enough. It leaves the same modules on its path as it found there.
  pub walk_roots-Returns :
      (root_id : IvyModuleId) (dependencies : List IvyDependency) (ctx : Walk D O)
      → (IsFinite D O settings requested_confs keys)
      → (Within D O settings requested_confs keys) dependencies
      → (IsKnown D O settings requested_confs keys) ctx
      → (ctx' : Walk D O) × (walk_roots D O settings requested_confs
            (suc (length keys))
            root_id
            dependencies
            ctx
          ≡ some ctx')
        × ((k : Bytes) → on_path D O ctx' k ≡ on_path D O ctx k)
  walk_roots-Returns root_id dependencies ctx finite i known =
      let (ctx', e) =
        roots-Returns (suc (length keys)) root_id dependencies ctx finite i known
          (omega (arith, unvisited-le-length keys (on_path D O ctx))) in
      (
        ctx',
        e,
        walk_roots-IsKept D O settings requested_confs _
            (SamePath-IsKept D O settings requested_confs) (suc (length keys)) root_id dependencies
            ctx ctx' e,
      )
