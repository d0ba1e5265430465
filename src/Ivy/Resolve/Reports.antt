-- ===== src/Ivy/Resolve/Reports.antt =====
-- The reports that `ivy_resolve_run` (src/ivy_resolve.c) leaves.
use mathlib.Core.Option.{some-injective}
use gantt.Prelude.{
  true-ne-false, ◌≡◌, ◌⊎◌, refl, ◌∙◌, sym, ap, false, Option, none, some, inl, inr, Bool-cases,
}
use mathlib.Core.Path.{subst}
use gantt.Text.{Bytes, streq, streq_iff, streq_refl}
use gantt.Dict.{Dict}
use gantt.Ivy.Resolvers.{Outside, module_id_key, revision_key}
use gantt.Ivy.Walk.{Walk, ModuleReport, RevisionReport, CacheEntry}
use gantt.Ivy.Walk.Fetched.{lookup_cached}
use gantt.Ivy.Walk.Latest.{winner, report_revision}
use gantt.Ivy.Resolve.{finalize_report, finalize_revision, store_report}
use gantt.Ivy.Resolve.Finalize.{IsFinal, IsUnmarked, finalize_report-IsFinal, IsFinal-IsUnmarked}

pub winner-some :
    (o : Option ModuleReport) {rev : Bytes}
    → report_revision o ≡ some rev
    → (mr : ModuleReport) × (o ≡ some mr) × (mr.id.revision ≡ some rev)
unfolding report_revision
winner-some none h = cc
winner-some (some mr) h = (mr, refl, h)

not_here : (k j : Bytes) → streq k j ≡ false → k ≡ j → ⊥
not_here k j s e = true-ne-false (sym ((streq_iff k j).1 e) ∙ s)

module _ (D : (V : Type 0) → Dict V) (O : Outside) where
  -- The report at a key and the winner of the module of an entry, with what they satisfy.
  abbrev pub Reported :
      (CacheEntry → Bytes → RevisionReport → Type 0) → Walk D O → Bytes → CacheEntry → Type 0
  Reported P ctx key3 entry =
      (rr : RevisionReport) × (rev : Bytes) × (Dict.lookup (D RevisionReport) ctx.revision_index
          key3
        ≡ some rr)
      × (winner D O ctx (module_id_key entry.id) ≡ some rev)
      × P entry rev rr

  abbrev pub Unmarked : CacheEntry → Bytes → RevisionReport → Type 0
  Unmarked entry rev rr = IsUnmarked rev rr

  module _ (cache_dir : Bytes) where
    -- Finalizing one entry.
    pub finalize_revision_lem :
        (ctx : Walk D O) (entry : CacheEntry)
        → Reported Unmarked ctx (revision_key (module_id_key entry.id) entry.id.revision) entry
        → let key3 = revision_key (module_id_key entry.id) entry.id.revision in
          let ctx' = finalize_revision D O cache_dir entry ctx in
          (ctx'.descriptor_cache ≡ ctx.descriptor_cache)
          × (ctx'.modules ≡ ctx.modules)
          × ((j : Bytes)
              → streq key3 j ≡ false
              → Dict.lookup (D _) ctx'.revision_index j ≡ Dict.lookup (D _) ctx.revision_index j)
          × Reported IsFinal ctx' key3 entry
    unfolding finalize_revision store_report
    finalize_revision_lem ctx entry (rr, rev, e, v, u) =
        let key3 = revision_key (module_id_key entry.id) entry.id.revision in
        let (mr, m, b) = winner-some _ v in
        let (final, _) = finalize_report-IsFinal D O cache_dir entry mr rr ctx.world rev b u in
        rw (e, m, finalize_revision)
          (
            refl,
            refl,
            λ j n. rw (Dict.lookup-insert (D RevisionReport), n) refl,
            (
              (finalize_report D O cache_dir entry mr rr ctx.world).0,
              rev,
              rw (Dict.lookup-insert (D RevisionReport), streq_refl key3) refl,
              v,
              final,
            ),
          )

    -- A report elsewhere, before and after.
    Reported-elsewhere :
        (P : CacheEntry → Bytes → RevisionReport → Type 0) (ctx ctx' : Walk D O) (key3 : Bytes)
        (entry : CacheEntry)
        → ctx'.modules ≡ ctx.modules
        → Dict.lookup (D RevisionReport) ctx'.revision_index key3
          ≡ Dict.lookup (D RevisionReport) ctx.revision_index key3
        → Reported P ctx key3 entry
        → Reported P ctx' key3 entry
    Reported-elsewhere P ctx ctx' key3 entry m same (rr, rev, e, v, p) = (
      rr,
      rev,
      same ∙ e,
      ap (λ t. report_revision (Dict.lookup (D _) t (module_id_key entry.id))) m ∙ v,
      p,
    )

    Final-Unmarked :
        (ctx : Walk D O) (key3 : Bytes) (entry : CacheEntry)
        → Reported IsFinal ctx key3 entry
        → Reported Unmarked ctx key3 entry
    Final-Unmarked ctx key3 entry (rr, rev, e, v, f) =
        (rr, rev, e, v, IsFinal-IsUnmarked D O cache_dir entry rev rr f)

    -- What holds before an entry is finalized, of all that the cache holds.
    pub record IsReady (ctx : Walk D O) : Type 0 where
      pub keyed :
          (key3 : Bytes) (entry : CacheEntry)
          → lookup_cached D O ctx key3 ≡ some entry
          → revision_key (module_id_key entry.id) entry.id.revision ≡ key3
      pub unmarked :
          (key3 : Bytes) (entry : CacheEntry)
          → lookup_cached D O ctx key3 ≡ some entry
          → Reported Unmarked ctx key3 entry

    -- The entry, or one with another key.
    pub step-Final :
        (ctx : Walk D O) (k : Bytes) (new : CacheEntry)
        → IsReady ctx
        → lookup_cached D O ctx k ≡ some new
        → (key3 : Bytes) (entry : CacheEntry) → lookup_cached D O ctx key3 ≡ some entry
        → (Reported IsFinal ctx key3 entry) ⊎ (k ≡ key3)
        → Reported IsFinal (finalize_revision D O cache_dir new ctx) key3 entry
    step-Final ctx k new ready c key3 entry h either =
        let own =
          subst (λ j. Reported Unmarked ctx j new) (sym (ready.keyed k new c))
            (ready.unmarked k new c) in
        let (_, modules, elsewhere, final) = finalize_revision_lem ctx new own in
        let here =
          subst (λ j. Reported IsFinal (finalize_revision D O cache_dir new ctx) j new)
            (ready.keyed k new c) final in
        elim (Bool-cases (streq k key3)) [
          | inl s ↦
              let same = (streq_iff k key3).0 s in
              subst (λ e. Reported IsFinal (finalize_revision D O cache_dir new ctx) key3 e)
                (some-injective _ _ (sym (rw same at c) ∙ h))
                (subst (λ j. Reported IsFinal (finalize_revision D O cache_dir new ctx) j new) same
                  here)
          | inr s ↦ elim either [
            | inl old ↦
                Reported-elsewhere IsFinal ctx (finalize_revision D O cache_dir new ctx) key3 entry
                  modules (elsewhere key3 (rw (ready.keyed k new c) s)) old
            | inr same ↦ absurd (not_here k key3 s same)
          ]
        ]

    pub step-IsReady :
        (ctx : Walk D O) (k : Bytes) (new : CacheEntry)
        → IsReady ctx
        → lookup_cached D O ctx k ≡ some new
        → IsReady (finalize_revision D O cache_dir new ctx)
    step-IsReady ctx k new ready c =
        let own =
          subst (λ j. Reported Unmarked ctx j new) (sym (ready.keyed k new c))
            (ready.unmarked k new c) in
        let (cache, modules, elsewhere, final) = finalize_revision_lem ctx new own in
        let before = λ (j : Bytes). ap (λ t. Dict.lookup (D CacheEntry) t j) cache in
        record {
          keyed = λ j e h. ready.keyed j e (sym (before j) ∙ h);
          unmarked = λ j e h. elim (Bool-cases (streq k j)) [
            | inl s ↦
                Final-Unmarked (finalize_revision D O cache_dir new ctx) j e (
                  step-Final ctx k new ready c j e (sym (before j) ∙ h) (inr ((streq_iff k j).0 s)))
            | inr s ↦
                Reported-elsewhere Unmarked ctx (finalize_revision D O cache_dir new ctx) j e
                  modules (elsewhere j (rw (ready.keyed k new c) s))
                  (ready.unmarked j e (sym (before j) ∙ h))
          ];
        }
