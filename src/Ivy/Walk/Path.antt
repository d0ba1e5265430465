-- ===== src/Ivy/Walk/Path.antt =====
-- The path of the walk (src/ivy_resolve.c), and what the cache holds.
use mathlib.Core.Path.{subst}
use gantt.Prelude.{
  ◌≡◌, refl, ◌∙◌, true, false, Option, none, some, List, arith, if◌then◌else◌, Option-cases, inl,
  inr, ap,
}
use gantt.Text.{Bytes, streq, streq_iff}
use gantt.Dict.{Dict}
use gantt.Target.{is_some}
use gantt.Ivy.Confs.{IvyModuleId}
use gantt.Ivy.Resolvers.{
  ModuleDescriptor, LeafResolver, Outside, Found, module_id_key, revision_key, resolver_find_module,
}
use gantt.Ivy.Walk.{
  Walk, CacheEntry, IvySettings, record_edge, fetch_descriptor, latest_wins, enter, leave, on_path,
  store_found, mark_missing, add_caller_edge, get_or_create_revision_report,
  get_or_create_module_report,
}
use gantt.Ivy.Walk.Rule.{IsKept, record_edge-path}

module _ (D : (V : Type 0) → Dict V) (O : Outside) where
  pub mark_missing-tables :
      (id : IvyModuleId) (key3 : Bytes) (ctx : Walk D O)
      → ((mark_missing D O id key3 ctx).ancestor_path ≡ ctx.ancestor_path)
        × ((mark_missing D O id key3 ctx).descriptor_cache ≡ ctx.descriptor_cache)
        × ((mark_missing D O id key3 ctx).modules ≡ ctx.modules)
  unfolding mark_missing
  mark_missing-tables id key3 ctx = ground arith

  pub on_path-enter :
      (key2 k : Bytes) (ctx : Walk D O)
      → on_path D O (enter D O key2 ctx) k ≡ (if streq key2 k then true else on_path D O ctx k)
  unfolding enter is_some
  on_path-enter key2 k ctx = ground (arith, Dict.lookup-insert (D _) ctx.ancestor_path key2 k 1)

  pub on_path-leave :
      (key2 k : Bytes) (ctx : Walk D O)
      → on_path D O (leave D O key2 ctx) k ≡ (if streq key2 k then false else on_path D O ctx k)
  unfolding leave is_some
  on_path-leave key2 k ctx = ground (arith, Dict.lookup-remove (D _) ctx.ancestor_path key2 k)

  -- Recording an edge leaves the cache alone.
  pub record_edge-cache :
      (id caller_id : IvyModuleId) (caller_conf : Bytes) (ctx : Walk D O)
      → (record_edge D O id caller_id caller_conf ctx).descriptor_cache ≡ ctx.descriptor_cache
  unfolding record_edge add_caller_edge get_or_create_revision_report get_or_create_module_report
  record_edge-cache id caller_id caller_conf ctx = ground arith

  module _ (settings : IvySettings) (requested_confs : List Bytes) where
    -- What a descriptor comes from: the cache, or a resolver, which puts it there.
    pub data Fetched (id : IvyModuleId) (ctx : Walk D O)
        : Option CacheEntry → Walk D O → Type 0 where
      cached :
          (entry : CacheEntry)
          → Dict.lookup
              (D CacheEntry)
              ctx.descriptor_cache
              (revision_key (module_id_key id) id.revision)
            ≡ some entry
          → Fetched id ctx (some entry) ctx
      missing :
          (w : Outside.World O)
          → resolver_find_module O id settings.cache_dir settings.default_resolver ctx.world
            ≡ (none, w)
          → Fetched id ctx none (
              mark_missing D O id
                (revision_key (module_id_key id) id.revision)
                (record ctx { world = w }))
      fresh :
          (md : ModuleDescriptor) (hit_resolver : LeafResolver) (w : Outside.World O)
          → Dict.lookup
              (D CacheEntry)
              ctx.descriptor_cache
              (revision_key (module_id_key id) id.revision)
            ≡ none
          → resolver_find_module O id settings.cache_dir settings.default_resolver ctx.world
            ≡ (some (md, hit_resolver), w)
          → Fetched id ctx
              (some (record { descriptor = md; resolver = hit_resolver; id = id }))
              (record ctx {
                descriptor_cache =
                    Dict.insert
                      (D CacheEntry)
                      ctx.descriptor_cache
                      (revision_key (module_id_key id) id.revision)
                      (record { descriptor = md; resolver = hit_resolver; id = id });
                world = w;
              })

    store_found-Fetched :
        (id : IvyModuleId) (ctx : Walk D O) (f : Found O)
        → Dict.lookup
            (D CacheEntry)
            ctx.descriptor_cache
            (revision_key (module_id_key id) id.revision)
          ≡ none
        → resolver_find_module O id settings.cache_dir settings.default_resolver ctx.world ≡ f
        → let r = store_found D O id (revision_key (module_id_key id) id.revision) ctx f in
          Fetched id ctx r.0 r.1
    unfolding store_found
    store_found-Fetched id ctx (none, w) n e = missing w e
    store_found-Fetched id ctx (some (md, r), w) n e = fresh md r w n e

    pub fetch_descriptor-Fetched :
        (id : IvyModuleId) (ctx : Walk D O)
        → Fetched id ctx
            (fetch_descriptor D O settings requested_confs id ctx).0
            (fetch_descriptor D O settings requested_confs id ctx).1
    unfolding fetch_descriptor
    fetch_descriptor-Fetched id ctx =
        elim (Option-cases (
          Dict.lookup (D CacheEntry) ctx.descriptor_cache
            (revision_key (module_id_key id) id.revision))) [
              | inl e ↦ rw (e, fetch_descriptor) (store_found-Fetched id ctx _ e refl)
              | inr (entry, e) ↦ rw (e, fetch_descriptor) (cached entry e)
            ]

    pub Fetched-of :
        (id : IvyModuleId) (ctx ctx' : Walk D O) (found : Option CacheEntry)
        → fetch_descriptor D O settings requested_confs id ctx ≡ (found, ctx')
        → Fetched id ctx found ctx'
    Fetched-of id ctx ctx' found h =
        subst (λ r. Fetched id ctx r.0 r.1) h (fetch_descriptor-Fetched id ctx)

    pub Fetched-path :
        {id : IvyModuleId} {ctx ctx' : Walk D O} {found : Option CacheEntry}
        → Fetched id ctx found ctx'
        → ctx'.ancestor_path ≡ ctx.ancestor_path
    Fetched-path (cached entry e) = refl
    Fetched-path {id} {ctx} (missing w e) =
        (mark_missing-tables id (revision_key (module_id_key id) id.revision)
          (record ctx { world = w })).0
    Fetched-path (fresh md r w n e) = refl

    -- The same modules are on the path.
    abbrev pub SamePath : Walk D O → Walk D O → Type 0
    SamePath a b = (k : Bytes) → on_path D O b k ≡ on_path D O a k

    pub SamePath-of : (a b : Walk D O) → b.ancestor_path ≡ a.ancestor_path → SamePath a b
    SamePath-of a b h k = ap (λ t. is_some (Dict.lookup (D _) t k)) h

    fetched-path :
        (id caller_id : IvyModuleId) (caller_conf : Bytes) (ctx ctx' : Walk D O)
        (found : Option CacheEntry)
        → fetch_descriptor D O settings requested_confs id
            (record_edge D O id caller_id caller_conf ctx)
          ≡ (found, ctx')
        → ctx'.ancestor_path ≡ ctx.ancestor_path
    fetched-path id caller_id caller_conf ctx ctx' found h =
        Fetched-path (Fetched-of id (record_edge D O id caller_id caller_conf ctx) ctx' found h)
        ∙ record_edge-path D O id caller_id caller_conf ctx

    around-SamePath :
        (id : IvyModuleId) (before a b : Walk D O)
        → on_path D O before (module_id_key id) ≡ false
        → SamePath before a
        → SamePath (enter D O (module_id_key id) a) b
        → SamePath before (leave D O (module_id_key id) b)
    around-SamePath id before a b x h inner k = ground (
      arith,
      on_path-leave (module_id_key id) k b,
      inner k,
      on_path-enter (module_id_key id) k a,
      h k,
      streq_iff (module_id_key id) k,
    )

    pub SamePath-IsKept : IsKept D O settings requested_confs SamePath
    unfolding latest_wins
    SamePath-IsKept = record {
      same = λ a k. refl;
      trans = λ a b c p q k. q k ∙ p k;
      edge = λ id caller_id caller_conf ctx.
          SamePath-of ctx (record_edge D O id caller_id caller_conf ctx)
            (record_edge-path D O id caller_id caller_conf ctx);
      outside = λ w ctx k. refl;
      missed = λ id caller_id caller_conf ctx ctx' f.
          SamePath-of ctx ctx' (fetched-path id caller_id caller_conf ctx ctx' none f);
      found = λ id caller_id caller_conf ctx ctx' entry f.
          SamePath-of ctx (latest_wins D O id ctx')
            (fetched-path id caller_id caller_conf ctx ctx' (some entry) f);
      around = around-SamePath;
    }
