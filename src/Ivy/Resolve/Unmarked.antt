-- ===== src/Ivy/Resolve/Unmarked.antt =====
-- The marks of the reports during the walk (src/ivy_resolve.c).
use gantt.Prelude.{
  ◌≡◌, ◌⊎◌, sym, ap, false, Option, none, some, List, inl, inr, Bool-cases, Option-cases,
}
use gantt.Text.{Bytes, codes}
use gantt.Dict.{Dict, lookup-insert_inv, lookup-update_at_inv}
use gantt.Ivy.Confs.{IvyModuleId}
use gantt.Ivy.Resolvers.{Outside, module_id_key, revision_key}
use gantt.Ivy.Walk.{
  Walk, RevisionReport, CacheEntry, IvySettings, record_edge, add_caller_edge,
  get_or_create_revision_report, get_or_create_module_report, mark_missing, has_error, with_caller,
  new_revision_report, latest_wins, enter, leave,
}
use gantt.Ivy.Walk.Rule.{IsKept}
use gantt.Ivy.Walk.Path.{Fetched, cached, missing, fresh, Fetched-of}

-- Neither the default nor evicted.
abbrev pub IsNew : RevisionReport → Type 0
IsNew rr = (rr.is_default ≡ false) × (rr.evicted ≡ false)

module _ (D : (V : Type 0) → Dict V) (O : Outside) where
  abbrev pub AllNew : Walk D O → Type 0
  AllNew ctx =
      (key3 : Bytes) (rr : RevisionReport)
      → Dict.lookup (D RevisionReport) ctx.revision_index key3 ≡ some rr
      → IsNew rr

  module_report-AllNew :
      (id : IvyModuleId) (ctx : Walk D O)
      → AllNew ctx
      → AllNew (get_or_create_module_report D O id ctx)
  unfolding get_or_create_module_report
  module_report-AllNew id ctx n =
      elim (Option-cases (Dict.lookup (D _) ctx.modules (module_id_key id))) [
        | inl e ↦ rw (e, get_or_create_module_report) n
        | inr (_, e) ↦ rw (e, get_or_create_module_report) n
      ]

  revision_report-AllNew :
      (key2 key3 : Bytes) (revision : Option Bytes) (ctx : Walk D O)
      → AllNew ctx
      → AllNew (get_or_create_revision_report D O key2 key3 revision ctx)
  unfolding get_or_create_revision_report new_revision_report
  revision_report-AllNew key2 key3 revision ctx n =
      elim (Option-cases (Dict.lookup (D RevisionReport) ctx.revision_index key3)) [
        | inl e ↦
            rw (e, get_or_create_revision_report)
              (λ j rr h. elim (lookup-insert_inv (D RevisionReport) ctx.revision_index key3 j _ h) [
                | inl (_, same) ↦ (
                  sym (ap (λ (r : RevisionReport). r.is_default) same),
                  sym (ap (λ (r : RevisionReport). r.evicted) same),
                )
                | inr (_, old) ↦ n j rr old
              ])
        | inr (_, e) ↦ rw (e, get_or_create_revision_report) n
      ]

  -- A write that leaves the marks alone.
  IsNew-either :
      (f : RevisionReport → RevisionReport)
      → ((rr : RevisionReport) → IsNew rr → IsNew (f rr))
      → (v x : RevisionReport) → IsNew v
      → (v ≡ x) ⊎ (f v ≡ x)
      → IsNew x
  IsNew-either f h v x n (inl e) = rw (← e) n
  IsNew-either f h v x n (inr e) = rw (← e) (h v n)

  pub edge-AllNew :
      (id caller_id : IvyModuleId) (caller_conf : Bytes) (ctx : Walk D O)
      → AllNew ctx
      → AllNew (record_edge D O id caller_id caller_conf ctx)
  unfolding record_edge add_caller_edge with_caller
  edge-AllNew id caller_id caller_conf ctx n j rr h =
      let key2 = module_id_key id in
      let key3 = revision_key key2 id.revision in
      let before =
        revision_report-AllNew key2 key3 id.revision (get_or_create_module_report D O id ctx)
          (module_report-AllNew id ctx n) in
      let (v, e, either) = lookup-update_at_inv (D RevisionReport) _ key3 j _ h in
      IsNew-either (with_caller caller_id caller_conf) (λ r i. i) v rr (before j v e) either

  mark_missing-AllNew :
      (id : IvyModuleId) (key3 : Bytes) (ctx : Walk D O)
      → AllNew ctx
      → AllNew (mark_missing D O id key3 ctx)
  unfolding mark_missing
  mark_missing-AllNew id key3 ctx n =
      elim (Bool-cases (has_error (Dict.lookup (D RevisionReport) ctx.revision_index key3))) [
        | inl e ↦ rw (e, mark_missing) n
        | inr e ↦
            rw (e, mark_missing)
              (λ j rr h.
                let (v, old, either) = lookup-update_at_inv (D RevisionReport) _ key3 j _ h in
                IsNew-either (λ r. record r { error = some (codes "not found") }) (λ r i. i) v rr
                  (n j v old) either)
      ]

  module _ (settings : IvySettings) (requested_confs : List Bytes) where
    Fetched-AllNew :
        {id : IvyModuleId} {ctx ctx' : Walk D O} {found : Option CacheEntry}
        → Fetched D O settings requested_confs id ctx found ctx'
        → AllNew ctx
        → AllNew ctx'
    Fetched-AllNew (cached entry e) n = n
    Fetched-AllNew {id} {ctx} (missing w e) n =
        mark_missing-AllNew id (revision_key (module_id_key id) id.revision)
          (record ctx { world = w }) n
    Fetched-AllNew (fresh md r w a e) n = n

    abbrev pub StayNew : Walk D O → Walk D O → Type 0
    StayNew a b = AllNew a → AllNew b

    pub StayNew-IsKept : IsKept D O settings requested_confs StayNew
    unfolding latest_wins enter leave
    StayNew-IsKept = record {
      same = λ a n. n;
      trans = λ a b c p q n. q (p n);
      edge = edge-AllNew;
      outside = λ w ctx n. n;
      missed = λ id caller_id caller_conf ctx ctx' f n.
          Fetched-AllNew (Fetched-of D O settings requested_confs id _ ctx' none f)
            (edge-AllNew id caller_id caller_conf ctx n);
      found = λ id caller_id caller_conf ctx ctx' entry f n.
          Fetched-AllNew (Fetched-of D O settings requested_confs id _ ctx' (some entry) f)
            (edge-AllNew id caller_id caller_conf ctx n);
      around = λ id before a b x p q n. q (p n);
    }
