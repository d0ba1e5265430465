-- ===== src/Ivy/Walk/Known.antt =====
-- What the cache of the walk (src/ivy_resolve.c) holds, where the modules are of a finite list.
use mathlib.Core.Path.{subst}
use gantt.Prelude.{
  ℕ, suc, ◌<◌, ◌≤◌, ◌≡◌, Bool, true, false, Option, none, some, List, [], ◌∷◌, arith, if◌then◌else◌,
  length, inl, inr, ap,
}
use gantt.Text.{Bytes}
use gantt.Dict.{Dict, lookup-insert_inv}
use gantt.Target.Order.{In}
use gantt.Ivy.Confs.{IvyModuleId}
use gantt.Ivy.Resolvers.{
  IvyDependency, ModuleDescriptor, LeafResolver, Outside, module_id_key, revision_key,
  resolver_find_module,
}
use gantt.Ivy.Walk.{Walk, CacheEntry, IvySettings, record_edge, latest_wins, enter, leave}
use gantt.Ivy.Walk.Rule.{IsKept}
use gantt.Ivy.Walk.Path.{
  Fetched, cached, missing, fresh, Fetched-of, record_edge-cache, mark_missing-tables,
}

-- The number of keys that are not under way.
pub unvisited : List Bytes → (Bytes → Bool) → ℕ
unvisited [] visited = 0
unvisited (k ∷ keys) visited =
    if visited k then unvisited keys visited else suc (unvisited keys visited)

pub unvisited-le-length : (keys : List Bytes) (f : Bytes → Bool) → unvisited keys f ≤ length keys
unfolding unvisited
unvisited-le-length [] f = omega arith
unvisited-le-length (k ∷ keys) f = ground (arith, unvisited-le-length keys f)

pub unvisited_mono :
    (keys : List Bytes) (f g : Bytes → Bool)
    → ((k : Bytes) → f k ≡ true → g k ≡ true)
    → unvisited keys g ≤ unvisited keys f
unfolding unvisited
unvisited_mono [] f g h = omega arith
unvisited_mono (k ∷ keys) f g h = ground (arith, h k, unvisited_mono keys f g h)

pub unvisited-lt :
    (keys : List Bytes) (key : Bytes) (f g : Bytes → Bool)
    → In key keys
    → ((k : Bytes) → f k ≡ true → g k ≡ true)
    → f key ≡ false
    → g key ≡ true
    → unvisited keys g < unvisited keys f
unfolding unvisited
unvisited-lt [] key f g i h no_f yes_g = absurd i
unvisited-lt (k ∷ keys) key f g (inl same) h no_f yes_g =
    ground (arith, unvisited_mono keys f g h, ap f same, ap g same)
unvisited-lt (k ∷ keys) key f g (inr i) h no_f yes_g =
    ground (arith, h k, unvisited-lt keys key f g i h no_f yes_g)

module _ (D : (V : Type 0) → Dict V) (O : Outside) (settings : IvySettings)
    (requested_confs : List Bytes) (keys : List Bytes) where
  -- All dependencies have their keys in the list.
  abbrev pub Within : List IvyDependency → Type 0
  Within dependencies = (dep : IvyDependency) → In dep dependencies → In (module_id_key dep.id) keys

  -- The resolvers know modules only whose dependencies have their keys in the list.
  abbrev pub IsFinite : Type 0
  IsFinite =
      (id : IvyModuleId) (w w' : Outside.World O) (md : ModuleDescriptor) (r : LeafResolver)
      → resolver_find_module O id settings.cache_dir settings.default_resolver w
        ≡ (some (md, r), w')
      → Within md.dependencies

  -- And so does the cache.
  abbrev pub IsKnown : Walk D O → Type 0
  IsKnown ctx =
      (key3 : Bytes) (entry : CacheEntry)
      → Dict.lookup (D CacheEntry) ctx.descriptor_cache key3 ≡ some entry
      → Within entry.descriptor.dependencies

  IsKnown-insert :
      (ctx : Walk D O) (key3 : Bytes) (new : CacheEntry) (w : Outside.World O)
      → IsKnown ctx
      → Within new.descriptor.dependencies
      → IsKnown (record ctx {
        descriptor_cache = Dict.insert (D CacheEntry) ctx.descriptor_cache key3 new;
        world = w;
      })
  IsKnown-insert ctx key3 new w known h j entry e =
      elim (lookup-insert_inv (D CacheEntry) ctx.descriptor_cache key3 j new e) [
        | inl (_, same) ↦ subst (λ (n : CacheEntry). Within n.descriptor.dependencies) same h
        | inr (_, old) ↦ known j entry old
      ]

  pub IsKnown-Fetched :
      {id : IvyModuleId} {ctx ctx' : Walk D O} {found : Option CacheEntry}
      → IsFinite
      → Fetched D O settings requested_confs id ctx found ctx'
      → IsKnown ctx
      → IsKnown ctx'
  IsKnown-Fetched finite (cached entry e) known = known
  IsKnown-Fetched {id} {ctx} finite (missing w e) known =
      rw
        (mark_missing-tables D O id (revision_key (module_id_key id) id.revision)
          (record ctx { world = w })).1
        known
  IsKnown-Fetched {id} {ctx} finite (fresh md r w n e) known =
      IsKnown-insert ctx _ _ w known (finite id ctx.world w md r e)

  -- The entry that a fetch gives stands in the cache.
  pub Within-Fetched :
      {id : IvyModuleId} {ctx ctx' : Walk D O} {entry : CacheEntry}
      → IsFinite
      → Fetched D O settings requested_confs id ctx (some entry) ctx'
      → IsKnown ctx
      → Within entry.descriptor.dependencies
  Within-Fetched finite (cached entry e) known = known _ entry e
  Within-Fetched {id} {ctx} finite (fresh md r w n e) known = finite id ctx.world w md r e

  abbrev pub Known : Walk D O → Walk D O → Type 0
  Known a b = IsKnown a → IsKnown b

  pub IsKnown-record_edge :
      (id caller_id : IvyModuleId) (caller_conf : Bytes) (ctx : Walk D O)
      → IsKnown ctx
      → IsKnown (record_edge D O id caller_id caller_conf ctx)
  IsKnown-record_edge id caller_id caller_conf ctx known =
      rw (record_edge-cache D O id caller_id caller_conf ctx) known

  pub Known-IsKept : IsFinite → IsKept D O settings requested_confs Known
  unfolding latest_wins enter leave
  Known-IsKept finite = record {
    same = λ a k. k;
    trans = λ a b c p q k. q (p k);
    edge = IsKnown-record_edge;
    outside = λ w ctx k. k;
    missed = λ id caller_id caller_conf ctx ctx' f k.
        IsKnown-Fetched finite (Fetched-of D O settings requested_confs id _ ctx' none f)
          (IsKnown-record_edge id caller_id caller_conf ctx k);
    found = λ id caller_id caller_conf ctx ctx' entry f k.
        IsKnown-Fetched finite (Fetched-of D O settings requested_confs id _ ctx' (some entry) f)
          (IsKnown-record_edge id caller_id caller_conf ctx k);
    around = λ id before a b x p q k. q (p k);
  }
