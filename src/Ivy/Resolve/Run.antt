-- ===== src/Ivy/Resolve/Run.antt =====
-- `ivy_resolve_run` of src/ivy_resolve.c as a whole.
use mathlib.Core.Option.{some-injective}
use gantt.Prelude.{
  suc, ◌≡◌, ◌≢◌, ◌⊎◌, refl, ◌∙◌, sym, ap, true, Option, none, some, List, [], ◌∷◌, In, inl, inr,
  Option-cases, length, Ordering,
}
use mathlib.Core.Path.{subst}
use gantt.Text.{Bytes}
use gantt.Dict.{Dict}
use gantt.Target.{is_some}
use gantt.Ivy.Revision.{compare_revisions}
use gantt.Ivy.Resolvers.{ModuleDescriptor, Outside, module_id_key, revision_key}
use gantt.Ivy.Walk.{Walk, ModuleReport, RevisionReport, CacheEntry, IvySettings}
use gantt.Ivy.Walk.Rule.{walk_roots-IsKept}
use gantt.Ivy.Walk.Known.{Within, IsFinite, IsKnown}
use gantt.Ivy.Walk.Terminates.{walk_roots-Returns}
use gantt.Ivy.Walk.Fetched.{lookup_cached}
use gantt.Ivy.Walk.Latest.{report_revision}
use gantt.Ivy.Walk.Winners.{IsConsistent, walk_roots-IsConsistent}
use gantt.Ivy.Resolve.{
  finalize_revision, finalize_all, finalize, store_report, new_walk, finish, resolve_run, requested,
}
use gantt.Ivy.Resolve.Finalize.{IsFinal}
use gantt.Ivy.Resolve.Unmarked.{AllNew, StayNew, StayNew-IsKept}
use gantt.Ivy.Resolve.Reports.{
  winner-some, Reported, Unmarked, finalize_revision_lem, step-Final, step-IsReady, IsReady,
}

some-of : {A : Type 0} (o : Option A) → is_some o ≡ true → (a : A) × (o ≡ some a)
unfolding is_some
some-of none h = cc
some-of (some a) h = (a, refl)

none-ne-some : {A : Type 0} {a : A} → none ≡ some a → ⊥
none-ne-some h = cc

module _ (D : (V : Type 0) → Dict V) (O : Outside) where
  module _ (cache_dir : Bytes) where
    -- Finalizing leaves the cache and the modules alone.
    finalize_revision-tables :
        (entry : CacheEntry) (ctx : Walk D O)
        → ((finalize_revision D O cache_dir entry ctx).descriptor_cache ≡ ctx.descriptor_cache)
          × ((finalize_revision D O cache_dir entry ctx).modules ≡ ctx.modules)
    unfolding finalize_revision store_report
    finalize_revision-tables entry ctx =
        elim (Option-cases (
          Dict.lookup (D RevisionReport) ctx.revision_index
            (revision_key (module_id_key entry.id) entry.id.revision))) [
              | inl e ↦ rw (e, finalize_revision) (refl, refl)
              | inr (rr, e) ↦
                  elim (Option-cases (Dict.lookup (D _) ctx.modules (module_id_key entry.id))) [
                    | inl m ↦ rw (e, m, finalize_revision) (refl, refl)
                    | inr (mr, m) ↦ rw (e, m, finalize_revision) (refl, refl)
                  ]
            ]

    finalize_all-tables :
        (entries : List (Bytes × CacheEntry)) (ctx : Walk D O)
        → ((finalize_all D O cache_dir entries ctx).descriptor_cache ≡ ctx.descriptor_cache)
          × ((finalize_all D O cache_dir entries ctx).modules ≡ ctx.modules)
    unfolding finalize_all
    finalize_all-tables [] ctx = (refl, refl)
    finalize_all-tables ((k, new) ∷ entries) ctx =
        let (c, m) = finalize_all-tables entries (finalize_revision D O cache_dir new ctx) in
        let (c', m') = finalize_revision-tables new ctx in (c ∙ c', m ∙ m')

    finalize_revision-cache :
        (ctx : Walk D O) (new : CacheEntry)
        → Reported D O (Unmarked D O) ctx (revision_key (module_id_key new.id) new.id.revision) new
        → (j : Bytes)
        → lookup_cached D O (finalize_revision D O cache_dir new ctx) j ≡ lookup_cached D O ctx j
    finalize_revision-cache ctx new r j =
        ap (λ t. Dict.lookup (D CacheEntry) t j) ((finalize_revision_lem D O cache_dir) ctx new r).0

    finalize_all-Final :
        (entries : List (Bytes × CacheEntry)) (ctx : Walk D O)
        → (IsReady D O cache_dir) ctx
        → ((k : Bytes) (e : CacheEntry) → In (k, e) entries → lookup_cached D O ctx k ≡ some e)
        → (key3 : Bytes) (entry : CacheEntry) → lookup_cached D O ctx key3 ≡ some entry
        → (Reported D O IsFinal ctx key3 entry) ⊎ In (key3, entry) entries
        → (Reported D O IsFinal (finalize_all D O cache_dir entries ctx) key3 entry)
          × (lookup_cached D O (finalize_all D O cache_dir entries ctx) key3 ≡ some entry)
    unfolding finalize_all
    finalize_all-Final [] ctx ready c key3 entry h (inl final) = (final, h)
    finalize_all-Final [] ctx ready c key3 entry h (inr i) = absurd i
    finalize_all-Final ((k, new) ∷ entries) ctx ready c key3 entry h either =
        let own = c k new (inl refl) in
        let r =
          subst (λ j. Reported D O (Unmarked D O) ctx j new) (sym (ready.keyed k new own))
            (ready.unmarked k new own) in
        let same = finalize_revision-cache ctx new r in
        finalize_all-Final entries (finalize_revision D O cache_dir new ctx)
          ((step-IsReady D O cache_dir) ctx k new ready own) (λ j e i. same j ∙ c j e (inr i)) key3
          entry (same key3 ∙ h)
          (elim either [
            | inl final ↦
                inl ((step-Final D O cache_dir) ctx k new ready own key3 entry h (inl final))
            | inr i ↦ elim i [
              | inl now ↦ inl (
                  (step-Final D O cache_dir) ctx k new ready own key3 entry h
                    (inr (ap (λ (p : Bytes × CacheEntry). p.0) now)))
              | inr later ↦ inr later
            ]
          ])

    IsReady-of :
        (ctx : Walk D O) → IsConsistent D O ctx → AllNew D O ctx → (IsReady D O cache_dir) ctx
    IsReady-of ctx c n = record {
      keyed = λ j e h. (c.keyed j e h).0;
      unmarked = λ j e h.
          let (rr, found) = some-of _ (c.keyed j e h).1 in
          let (rev, w, _) = c.covered j e h in
          (
            rr,
            rev,
            found,
            w,
            record { no_default = λ _. (n j rr found).0; not_evicted = λ _. (n j rr found).1 },
          );
    }

    -- A report that is final, of a revision that is not after the winner of its module.
    abbrev pub Settled : CacheEntry → Bytes → RevisionReport → Type 0
    Settled entry rev rr =
        IsFinal entry rev rr × (compare_revisions entry.id.revision (some rev) ≢ Ordering.gt)

    finalize-Settled :
        (ctx : Walk D O)
        → IsConsistent D O ctx
        → AllNew D O ctx
        → (key3 : Bytes) (entry : CacheEntry)
        → lookup_cached D O (finalize D O cache_dir ctx) key3 ≡ some entry
        → Reported D O Settled (finalize D O cache_dir ctx) key3 entry
    unfolding finalize
    finalize-Settled ctx c n key3 entry h =
        let L = Dict.entries (D CacheEntry) ctx.descriptor_cache in
        let (cache, modules) = finalize_all-tables L ctx in
        let old = sym (ap (λ t. Dict.lookup (D CacheEntry) t key3) cache) ∙ h in
        let ((rr, rev, e, w, final), _) =
          finalize_all-Final L ctx (IsReady-of ctx c n)
            (λ k e i. (Dict.lookup-entries (D CacheEntry) ctx.descriptor_cache k e).0 i) key3 entry
            old
            (inr ((Dict.lookup-entries (D CacheEntry) ctx.descriptor_cache key3 entry).1 old)) in
        let (rev', w', l) = c.covered key3 entry old in
        let same = some-injective _ _ (
          sym w'
          ∙ sym (ap (λ t. report_revision (Dict.lookup (D _) t (module_id_key entry.id))) modules)
          ∙ w) in
        (rr, rev, e, w, (final, rw (← same) l))

  none-found :
      {V : Type 0} (E : Dict V) (j : Bytes) {v : V} → Dict.lookup E (Dict.empty E) j ≡ some v → ⊥
  none-found E j h = none-ne-some (sym (Dict.lookup-empty E j) ∙ h)

  pub new_walk-IsConsistent : (w : Outside.World O) → IsConsistent D O (new_walk D O w)
  unfolding new_walk
  new_walk-IsConsistent w = record {
    keyed = λ j e h. absurd (none-found (D CacheEntry) j h);
    covered = λ j e h. absurd (none-found (D CacheEntry) j h);
    won = λ key2 rev h. absurd (none-found (D ModuleReport) key2 (winner-some _ h).1);
  }

  new_walk-AllNew : (w : Outside.World O) → AllNew D O (new_walk D O w)
  unfolding new_walk
  new_walk-AllNew w j rr h = absurd (none-found (D RevisionReport) j h)

  module _ (settings : IvySettings) (root_md : ModuleDescriptor) (conf_filter : Option Bytes)
      (keys : List Bytes) where
    abbrev confs : List Bytes
    confs = requested conf_filter root_md.configurations

    pub new_walk-IsKnown : (w : Outside.World O) → IsKnown D O settings confs keys (new_walk D O w)
    unfolding new_walk
    new_walk-IsKnown w j e h = absurd (none-found (D CacheEntry) j h)

    -- Where the modules that the resolvers know, and the root, depend on modules of a finite list
    -- only, the resolution comes back: a recursion one deeper than the list is long is enough. Each
    -- descriptor that was found has a report with its data; its module has a winner, which is not
    -- before it; and the report is marked as the default if it is of the winner's revision, and as
    -- evicted by the winner if it is not.
    pub resolve_run-Settled :
        (w : Outside.World O)
        → IsFinite D O settings confs keys
        → Within D O settings confs keys root_md.dependencies
        → (ctx : Walk D O) × (resolve_run D O (suc (length keys)) settings root_md conf_filter w
            ≡ some ctx)
          × ((key3 : Bytes) (entry : CacheEntry)
              → lookup_cached D O ctx key3 ≡ some entry
              → Reported D O (Settled settings.cache_dir) ctx key3 entry)
    unfolding resolve_run finish
    resolve_run-Settled w finite within =
        let (ctx, e, _) =
          walk_roots-Returns D O settings confs keys root_md.id root_md.dependencies
            (new_walk D O w) finite within (new_walk-IsKnown w) in
        (
          finalize D O settings.cache_dir ctx,
          rw (e, finish) refl,
          finalize-Settled settings.cache_dir ctx
              (walk_roots-IsConsistent D O settings confs (suc (length keys)) root_md.id
                root_md.dependencies (new_walk D O w) ctx e (new_walk-IsConsistent w))
              (walk_roots-IsKept D O settings confs (StayNew D O settings confs)
                (StayNew-IsKept D O settings confs) (suc (length keys)) root_md.id
                root_md.dependencies (new_walk D O w) ctx e (new_walk-AllNew w)),
        )
