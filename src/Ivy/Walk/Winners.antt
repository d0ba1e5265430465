-- ===== src/Ivy/Walk/Winners.antt =====
-- The reports of the walk against its cache (src/ivy_resolve.c).
use gantt.Prelude.{
  ℕ, ◌≡◌, ◌≢◌, refl, sym, ◌∙◌, ap, true, Option, none, some, List, arith, if◌then◌else◌, ◌⊎◌, inl,
  inr, Bool-cases, Ordering,
}
use gantt.Text.{Bytes, streq, streq_iff, streq_refl}
use gantt.Dict.{Dict}
use gantt.Target.{is_some}
use gantt.Ivy.Revision.{or_empty, compare_revisions}
use gantt.Ivy.Confs.{IvyModuleId}
use gantt.Ivy.Resolvers.{IvyDependency, Outside, module_id_key, revision_key}
use gantt.Ivy.Walk.{
  Walk, ModuleReport, CacheEntry, IvySettings, record_edge, latest_wins, walk_roots, enter, leave,
}
use gantt.Ivy.Walk.Rule.{IsKept, walk_roots-IsKept}
use gantt.Ivy.Walk.Path.{Fetched, missing, Fetched-of, record_edge-cache, mark_missing-tables}
use gantt.Ivy.Walk.Fetched.{
  lookup_cached, Fetched-reports, Fetched-cached, Fetched-lookup, Fetched-keeps,
}
use gantt.Ivy.Walk.Later.{latest, latest-ge, latest-ge_best}
use gantt.Ivy.Walk.Latest.{
  winner, has_module, has_report, report_revision, edge-winner, edge-has_module, edge-has_report,
  latest_wins-winner, mark_missing-has_report,
}

module _ (D : (V : Type 0) → Dict V) (O : Outside) where
  -- What the tables of the walk tell of one another.
  pub record IsConsistent (ctx : Walk D O) : Type 0 where
    pub keyed :
        (key3 : Bytes) (entry : CacheEntry)
        → lookup_cached D O ctx key3 ≡ some entry
        → (revision_key (module_id_key entry.id) entry.id.revision ≡ key3)
          × (has_report D O ctx key3 ≡ true)
    pub covered :
        (key3 : Bytes) (entry : CacheEntry)
        → lookup_cached D O ctx key3 ≡ some entry
        → (rev : Bytes) × (winner D O ctx (module_id_key entry.id) ≡ some rev)
          × (compare_revisions entry.id.revision (some rev) ≢ Ordering.gt)
    pub won :
        (key2 rev : Bytes)
        → winner D O ctx key2 ≡ some rev
        → is_some (lookup_cached D O ctx (revision_key key2 (some rev))) ≡ true

  -- Growing the winners by one revision.
  covered-latest :
      (id : IvyModuleId) (W : Bytes → Option Bytes) (key2 : Bytes) (revision : Option Bytes)
      → (rev : Bytes) × (W key2 ≡ some rev) × (compare_revisions revision (some rev) ≢ Ordering.gt)
      → (rev : Bytes) × ((if streq (module_id_key id) key2
            then latest id.revision (W (module_id_key id))
            else W key2)
          ≡ some rev)
        × (compare_revisions revision (some rev) ≢ Ordering.gt)
  covered-latest id W key2 revision (rev, e, h) =
      elim (Bool-cases (streq (module_id_key id) key2)) [
        | inl s ↦
            let (rev', e', _) = latest-ge id.revision (some rev) in
            let same = (streq_iff (module_id_key id) key2).0 s in
            (rev', rw s (rw (ap W same ∙ e) e'), latest-ge_best id.revision revision rev rev' h e')
        | inr s ↦ (rev, rw s e, h)
      ]

  revision_key-or_empty :
      (key2 : Bytes) (r : Option Bytes)
      → revision_key key2 (some (or_empty r)) ≡ revision_key key2 r
  unfolding revision_key or_empty
  revision_key-or_empty key2 none = refl
  revision_key-or_empty key2 (some r) = refl

  latest-either :
      (revision best : Option Bytes) {rev : Bytes}
      → latest revision best ≡ some rev
      → (some (or_empty revision) ≡ some rev) ⊎ (best ≡ some rev)
  unfolding latest
  latest-either revision best h = ground arith

  module _ (settings : IvySettings) (requested_confs : List Bytes) where
    abbrev Consistent : Walk D O → Walk D O → Type 0
    Consistent a b = IsConsistent a → IsConsistent b

    edge-Consistent :
        (id caller_id : IvyModuleId) (caller_conf : Bytes) (ctx : Walk D O)
        → Consistent ctx (record_edge D O id caller_id caller_conf ctx)
    edge-Consistent id caller_id caller_conf ctx c =
        let same = λ (j : Bytes).
          ap (λ t. Dict.lookup (D CacheEntry) t j)
            (record_edge-cache D O id caller_id caller_conf ctx) in
        record {
          keyed = λ j e h.
              let (k, r) = c.keyed j e (sym (same j) ∙ h) in
              (k, ground (arith, edge-has_report D O id caller_id caller_conf j ctx));
          covered = λ j e h.
              let (rev, w, l) = c.covered j e (sym (same j) ∙ h) in
              (rev, edge-winner D O id caller_id caller_conf (module_id_key e.id) ctx ∙ w, l);
          won = λ key2 rev h.
              ap is_some (same (revision_key key2 (some rev)))
              ∙ c.won key2 rev (sym (edge-winner D O id caller_id caller_conf key2 ctx) ∙ h);
        }

    won-latest :
        (id : IvyModuleId) (ctx ctx' : Walk D O) (entry : CacheEntry)
        → Fetched D O settings requested_confs id ctx (some entry) ctx'
        → IsConsistent ctx
        → (key2 rev : Bytes)
        → (if streq (module_id_key id) key2
            then latest id.revision (winner D O ctx (module_id_key id))
            else winner D O ctx key2)
          ≡ some rev
        → is_some (lookup_cached D O ctx' (revision_key key2 (some rev))) ≡ true
    unfolding is_some
    won-latest id ctx ctx' entry f c key2 rev h =
        elim (Bool-cases (streq (module_id_key id) key2)) [
          | inl s ↦
              let same = (streq_iff (module_id_key id) key2).0 s in
              elim (latest-either id.revision _ (rw s at h)) [
                | inl now ↦
                    rw
                      (
                        ← same,
                        ← now,
                        revision_key-or_empty (module_id_key id) id.revision,
                        Fetched-cached D O settings requested_confs f,
                      )
                      refl
                | inr before ↦
                    Fetched-keeps D O settings requested_confs f _
                      (c.won key2 rev (rw (← same) before))
              ]
          | inr s ↦ Fetched-keeps D O settings requested_confs f _ (c.won key2 rev (rw s at h))
        ]

    missed-Consistent :
        (id : IvyModuleId) (ctx ctx' : Walk D O)
        → Fetched D O settings requested_confs id ctx none ctx'
        → Consistent ctx ctx'
    missed-Consistent id ctx ctx' (missing w f) c =
        let key3 = revision_key (module_id_key id) id.revision in
        let (_, cache, modules) = mark_missing-tables D O id key3 (record ctx { world = w }) in
        let same = λ (j : Bytes). ap (λ t. Dict.lookup (D CacheEntry) t j) cache in
        let winners = λ (j : Bytes). ap (λ t. report_revision (Dict.lookup (D _) t j)) modules in
        record {
          keyed = λ j e h.
              let (k, r) = c.keyed j e (sym (same j) ∙ h) in
              (k, mark_missing-has_report D O id key3 j (record ctx { world = w }) ∙ r);
          covered = λ j e h.
              let (rev, v, l) = c.covered j e (sym (same j) ∙ h) in
              (rev, winners (module_id_key e.id) ∙ v, l);
          won = λ key2 rev h.
              ap is_some (same (revision_key key2 (some rev)))
              ∙ c.won key2 rev (sym (winners key2) ∙ h);
        }

    found-Consistent :
        (id : IvyModuleId) (ctx ctx' : Walk D O) (entry : CacheEntry)
        → Fetched D O settings requested_confs id ctx (some entry) ctx'
        → has_module D O ctx (module_id_key id) ≡ true
        → has_report D O ctx (revision_key (module_id_key id) id.revision) ≡ true
        → IsConsistent ctx
        → IsConsistent (latest_wins D O id ctx')
    unfolding latest_wins
    found-Consistent id ctx ctx' entry f m r c =
        let (modules, reports) = Fetched-reports D O settings requested_confs f in
        let winners = λ (j : Bytes).
          latest_wins-winner D O id j ctx'
            (ap (λ t. is_some (Dict.lookup (D _) t (module_id_key id))) modules ∙ m)
          ∙ ap
              (λ (t : Dict.Table (D ModuleReport)).
                let W = λ (k : Bytes). report_revision (Dict.lookup (D _) t k) in
                if streq (module_id_key id) j
                then latest id.revision (W (module_id_key id))
                else W j)
              modules in
        record {
          keyed = λ j e h. elim (Fetched-lookup D O settings requested_confs f j e h) [
            | inl old ↦ ((c.keyed j e old).0, reports j ∙ (c.keyed j e old).1)
            | inr (k, new) ↦ (
              ap (λ (i : IvyModuleId). revision_key (module_id_key i) i.revision) (sym new) ∙ k,
              reports j ∙ rw (← k) r,
            )
          ];
          covered = λ j e h. elim (Fetched-lookup D O settings requested_confs f j e h) [
            | inl old ↦
                let (rev, w, l) =
                  covered-latest id (winner D O ctx) (module_id_key e.id) e.id.revision
                    (c.covered j e old) in
                (rev, winners (module_id_key e.id) ∙ w, l)
            | inr (k, new) ↦
                let (rev, w, l) = latest-ge id.revision (winner D O ctx (module_id_key id)) in
                (
                  rev,
                  winners (module_id_key e.id) ∙ rw (← new, streq_refl (module_id_key id)) w,
                  rw (← new) l,
                )
          ];
          won = λ key2 rev h. won-latest id ctx ctx' entry f c key2 rev (sym (winners key2) ∙ h);
        }

    Consistent-IsKept : IsKept D O settings requested_confs Consistent
    unfolding enter leave
    Consistent-IsKept = record {
      same = λ a c. c;
      trans = λ a b c p q i. q (p i);
      edge = edge-Consistent;
      outside = λ w ctx c. record { keyed = c.keyed; covered = c.covered; won = c.won };
      missed = λ id caller_id caller_conf ctx ctx' f c.
          missed-Consistent id (record_edge D O id caller_id caller_conf ctx) ctx'
            (Fetched-of D O settings requested_confs id _ ctx' none f)
            (edge-Consistent id caller_id caller_conf ctx c);
      found = λ id caller_id caller_conf ctx ctx' entry f c.
          found-Consistent id (record_edge D O id caller_id caller_conf ctx) ctx' entry
            (Fetched-of D O settings requested_confs id _ ctx' (some entry) f)
            (edge-has_module D O id caller_id caller_conf ctx)
            (rw
              (
                edge-has_report D O id caller_id caller_conf
                    (revision_key (module_id_key id) id.revision) ctx,
                streq_refl (revision_key (module_id_key id) id.revision),
              )
              refl)
            (edge-Consistent id caller_id caller_conf ctx c);
      around = λ id before a b x p q c.
          let r = q (let i = p c in record { keyed = i.keyed; covered = i.covered; won = i.won }) in
          record { keyed = r.keyed; covered = r.covered; won = r.won };
    }

    -- If the tables agree before the walk over the dependencies of the root, and it comes back, they
    -- agree afterwards: a cached descriptor stands under the key of its module and revision, and has
    -- a report; its module has a winner, which is not before it; and a winner is a revision that was
    -- found.
    pub walk_roots-IsConsistent :
        (fuel : ℕ) (root_id : IvyModuleId) (dependencies : List IvyDependency) (ctx ctx' : Walk D O)
        → walk_roots D O settings requested_confs fuel root_id dependencies ctx ≡ some ctx'
        → IsConsistent ctx
        → IsConsistent ctx'
    walk_roots-IsConsistent fuel root_id dependencies ctx ctx' h =
        walk_roots-IsKept D O settings requested_confs Consistent Consistent-IsKept fuel root_id
          dependencies ctx ctx' h
