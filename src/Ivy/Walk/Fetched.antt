-- ===== src/Ivy/Walk/Fetched.antt =====
-- What fetching a descriptor does to the tables of the walk (src/ivy_resolve.c).
use gantt.Prelude.{◌≡◌, refl, ap, true, Option, some, List, arith, ◌⊎◌, inl, inr}
use gantt.Text.{Bytes, streq_refl}
use gantt.Dict.{Dict, lookup-insert_inv}
use gantt.Target.{is_some}
use gantt.Ivy.Confs.{IvyModuleId}
use gantt.Ivy.Resolvers.{Outside, module_id_key, revision_key}
use gantt.Ivy.Walk.{Walk, CacheEntry, IvySettings}
use gantt.Ivy.Walk.Path.{Fetched, cached, missing, fresh, mark_missing-tables}
use gantt.Ivy.Walk.Latest.{has_report, mark_missing-has_report}

module _ (D : (V : Type 0) → Dict V) (O : Outside) where
  -- The cache holds a descriptor under the key.
  abbrev pub lookup_cached : Walk D O → Bytes → Option CacheEntry
  lookup_cached ctx key3 = Dict.lookup (D CacheEntry) ctx.descriptor_cache key3

  module _ (settings : IvySettings) (requested_confs : List Bytes) where
    -- What a fetch leaves alone.
    pub Fetched-reports :
        {id : IvyModuleId} {ctx ctx' : Walk D O} {found : Option CacheEntry}
        → Fetched D O settings requested_confs id ctx found ctx'
        → (ctx'.modules ≡ ctx.modules)
          × ((j : Bytes) → has_report D O ctx' j ≡ has_report D O ctx j)
    Fetched-reports (cached entry e) = (refl, λ j. refl)
    Fetched-reports {id} {ctx} (missing w e) = (
      (mark_missing-tables D O id (revision_key (module_id_key id) id.revision)
          (record ctx { world = w })).2,
      λ j.
          mark_missing-has_report D O id (revision_key (module_id_key id) id.revision) j
            (record ctx { world = w }),
    )
    Fetched-reports (fresh md r w n e) = (refl, λ j. refl)

    pub Fetched-cached :
        {id : IvyModuleId} {ctx ctx' : Walk D O} {entry : CacheEntry}
        → Fetched D O settings requested_confs id ctx (some entry) ctx'
        → lookup_cached ctx' (revision_key (module_id_key id) id.revision) ≡ some entry
    Fetched-cached (cached entry e) = e
    Fetched-cached {id} {ctx} (fresh md r w n e) =
        rw
          (
            Dict.lookup-insert (D CacheEntry),
            streq_refl (revision_key (module_id_key id) id.revision),
          )
          refl

    pub Fetched-lookup :
        {id : IvyModuleId} {ctx ctx' : Walk D O} {found : Option CacheEntry}
        → Fetched D O settings requested_confs id ctx found ctx'
        → (j : Bytes) (e : CacheEntry) → lookup_cached ctx' j ≡ some e
        → (lookup_cached ctx j ≡ some e)
          ⊎ ((revision_key (module_id_key id) id.revision ≡ j) × (id ≡ e.id))
    Fetched-lookup (cached entry c) j e h = inl h
    Fetched-lookup {id} {ctx} (missing w f) j e h = inl (
        rw
          (mark_missing-tables D O id (revision_key (module_id_key id) id.revision)
            (record ctx { world = w })).1
          at h)
    Fetched-lookup {id} {ctx} (fresh md r w n f) j e h =
        elim (lookup-insert_inv (D CacheEntry) ctx.descriptor_cache _ j _ h) [
          | inl (k, same) ↦ inr (k, ap (λ (n : CacheEntry). n.id) same)
          | inr (_, old) ↦ inl old
        ]

    pub Fetched-keeps :
        {id : IvyModuleId} {ctx ctx' : Walk D O} {found : Option CacheEntry}
        → Fetched D O settings requested_confs id ctx found ctx'
        → (j : Bytes) → is_some (lookup_cached ctx j) ≡ true
        → is_some (lookup_cached ctx' j) ≡ true
    unfolding is_some
    Fetched-keeps (cached entry c) j h = h
    Fetched-keeps {id} {ctx} (missing w f) j h =
        rw
          (mark_missing-tables D O id (revision_key (module_id_key id) id.revision)
            (record ctx { world = w })).1
          h
    Fetched-keeps {id} {ctx} (fresh md r w n f) j h = ground (
      arith,
      Dict.lookup-insert (D CacheEntry) ctx.descriptor_cache
          (revision_key (module_id_key id) id.revision) j
          (record { descriptor = md; resolver = r; id = id }),
    )
