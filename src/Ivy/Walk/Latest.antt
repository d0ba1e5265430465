-- ===== src/Ivy/Walk/Latest.antt =====
-- The winners of the walk (src/ivy_resolve.c): what the steps of `walk_module` do to the revisions
-- that the modules have in their reports.
use gantt.Prelude.{
  ◌≡◌, refl, ◌∙◌, ap, Bool, true, Option, none, some, arith, if◌then◌else◌, ◌||◌, [], inl, inr,
  Option-cases, Bool-cases,
}
use gantt.Text.{Bytes, streq, streq_iff, streq_refl}
use gantt.Dict.{Dict, update_at}
use gantt.Target.{is_some}
use gantt.Ivy.Confs.{IvyModuleId}
use gantt.Ivy.Resolvers.{Outside, module_id_key, revision_key}
use gantt.Ivy.Walk.Later.{latest}
use gantt.Ivy.Walk.{
  Walk, ModuleReport, RevisionReport, keep_latest, get_or_create_module_report,
  get_or_create_revision_report, add_caller_edge, record_edge, latest_wins, mark_missing,
  new_revision_report, has_error,
}

-- The revision of a report that may be missing.
unfoldable pub report_revision : Option ModuleReport → Option Bytes
report_revision none = none
report_revision (some mr) = mr.id.revision

module _ (D : (V : Type 0) → Dict V) (O : Outside) where
  -- `mr->id.revision` of the module with the key.
  abbrev pub winner : Walk D O → Bytes → Option Bytes
  winner ctx key2 = report_revision (Dict.lookup (D ModuleReport) ctx.modules key2)

  abbrev pub has_module : Walk D O → Bytes → Bool
  has_module ctx key2 = is_some (Dict.lookup (D ModuleReport) ctx.modules key2)

  abbrev pub has_report : Walk D O → Bytes → Bool
  has_report ctx key3 = is_some (Dict.lookup (D RevisionReport) ctx.revision_index key3)

  -- A write to a value adds and removes no key.
  pub update_at-keys :
      {V : Type 0} (t : Dict.Table (D V)) (k j : Bytes) (f : V → V)
      → is_some (Dict.lookup (D V) (update_at (D V) t k f) j) ≡ is_some (Dict.lookup (D V) t j)
  unfolding is_some update_at
  update_at-keys {V} t k j f = elim (Option-cases (Dict.lookup (D V) t k)) [
    | inl e ↦ rw (e, update_at) refl
    | inr (v, e) ↦
        rw (e, update_at) (ground (arith, Dict.lookup-insert (D V) t k j (f v), streq_iff k j, e))
  ]

  -- A write that leaves the revision alone changes no winner.
  winner-update_at :
      (t : Dict.Table (D ModuleReport)) (k j : Bytes) (f : ModuleReport → ModuleReport)
      → ((mr : ModuleReport) → (f mr).id.revision ≡ mr.id.revision)
      → report_revision (Dict.lookup (D ModuleReport) (update_at (D ModuleReport) t k f) j)
        ≡ report_revision (Dict.lookup (D ModuleReport) t j)
  unfolding report_revision update_at
  winner-update_at t k j f h = elim (Option-cases (Dict.lookup (D ModuleReport) t k)) [
    | inl e ↦ rw (e, update_at) refl
    | inr (mr, e) ↦
        rw (e, update_at)
          (ground (arith, Dict.lookup-insert (D ModuleReport) t k j (f mr), streq_iff k j, h mr, e))
  ]

  create-winner :
      (id : IvyModuleId) (j : Bytes) (ctx : Walk D O)
      → winner (get_or_create_module_report D O id ctx) j ≡ winner ctx j
  unfolding get_or_create_module_report report_revision
  create-winner id j ctx =
      elim (Option-cases (Dict.lookup (D ModuleReport) ctx.modules (module_id_key id))) [
        | inl e ↦
            rw (e, get_or_create_module_report)
              (ground (
                arith,
                Dict.lookup-insert (D ModuleReport) ctx.modules (module_id_key id) j
                    (record { id = record id { revision = none }; revisions = [] }),
                streq_iff (module_id_key id) j,
                e,
              ))
        | inr (mr, e) ↦ rw (e, get_or_create_module_report) refl
      ]

  create-has_module :
      (id : IvyModuleId) (ctx : Walk D O)
      → has_module (get_or_create_module_report D O id ctx) (module_id_key id) ≡ true
  unfolding get_or_create_module_report is_some
  create-has_module id ctx =
      elim (Option-cases (Dict.lookup (D ModuleReport) ctx.modules (module_id_key id))) [
        | inl e ↦
            rw (e, get_or_create_module_report)
              (rw (Dict.lookup-insert (D ModuleReport), streq_refl (module_id_key id)) refl)
        | inr (mr, e) ↦ rw (e, get_or_create_module_report) (rw e refl)
      ]

  report-winner :
      (key2 key3 : Bytes) (revision : Option Bytes) (j : Bytes) (ctx : Walk D O)
      → (winner (get_or_create_revision_report D O key2 key3 revision ctx) j ≡ winner ctx j)
        × (has_module (get_or_create_revision_report D O key2 key3 revision ctx) j
            ≡ has_module ctx j)
  unfolding get_or_create_revision_report
  report-winner key2 key3 revision j ctx =
      elim (Option-cases (Dict.lookup (D RevisionReport) ctx.revision_index key3)) [
        | inl e ↦
            rw (e, get_or_create_revision_report)
              (
                winner-update_at ctx.modules key2 j _ (λ mr. refl),
                update_at-keys ctx.modules key2 j _,
              )
        | inr (rr, e) ↦ rw (e, get_or_create_revision_report) (refl, refl)
      ]

  report-has_report :
      (key2 key3 : Bytes) (revision : Option Bytes) (j : Bytes) (ctx : Walk D O)
      → has_report (get_or_create_revision_report D O key2 key3 revision ctx) j
        ≡ (streq key3 j || has_report ctx j)
  unfolding get_or_create_revision_report is_some
  report-has_report key2 key3 revision j ctx =
      elim (Option-cases (Dict.lookup (D RevisionReport) ctx.revision_index key3)) [
        | inl e ↦
            rw (e, get_or_create_revision_report)
              (ground (
                arith,
                Dict.lookup-insert (D RevisionReport) ctx.revision_index key3 j
                    (new_revision_report revision),
              ))
        | inr (rr, e) ↦ rw (e, get_or_create_revision_report) (ground (arith, streq_iff key3 j, e))
      ]

  create-has_report :
      (id : IvyModuleId) (j : Bytes) (ctx : Walk D O)
      → has_report (get_or_create_module_report D O id ctx) j ≡ has_report ctx j
  unfolding get_or_create_module_report
  create-has_report id j ctx = ground arith

  -- Recording an edge changes no winner, and makes the two reports.
  pub edge-winner :
      (id caller_id : IvyModuleId) (caller_conf j : Bytes) (ctx : Walk D O)
      → winner (record_edge D O id caller_id caller_conf ctx) j ≡ winner ctx j
  unfolding record_edge add_caller_edge
  edge-winner id caller_id caller_conf j ctx =
      (report-winner _ _ id.revision j (get_or_create_module_report D O id ctx)).0
      ∙ create-winner id j ctx

  pub edge-has_module :
      (id caller_id : IvyModuleId) (caller_conf : Bytes) (ctx : Walk D O)
      → has_module (record_edge D O id caller_id caller_conf ctx) (module_id_key id) ≡ true
  unfolding record_edge add_caller_edge
  edge-has_module id caller_id caller_conf ctx =
      (report-winner _ _ id.revision (module_id_key id) (get_or_create_module_report D O id ctx)).1
      ∙ create-has_module id ctx

  pub edge-has_report :
      (id caller_id : IvyModuleId) (caller_conf j : Bytes) (ctx : Walk D O)
      → has_report (record_edge D O id caller_id caller_conf ctx) j
        ≡ (streq (revision_key (module_id_key id) id.revision) j || has_report ctx j)
  unfolding record_edge add_caller_edge
  edge-has_report id caller_id caller_conf j ctx =
      let key3 = revision_key (module_id_key id) id.revision in
      update_at-keys
        (get_or_create_revision_report D O (module_id_key id) key3 id.revision
          (get_or_create_module_report D O id ctx)).revision_index
        key3 j _
      ∙ report-has_report (module_id_key id) key3 id.revision j
          (get_or_create_module_report D O id ctx)
      ∙ ap (λ b. streq key3 j || b) (create-has_report id j ctx)

  -- The winner after one more revision was found.
  pub latest_wins-winner :
      (id : IvyModuleId) (j : Bytes) (ctx : Walk D O)
      → has_module ctx (module_id_key id) ≡ true
      → winner (latest_wins D O id ctx) j ≡ (
          if streq (module_id_key id) j
          then latest id.revision (winner ctx (module_id_key id))
          else winner ctx j)
  unfolding latest_wins keep_latest latest report_revision is_some update_at
  latest_wins-winner id j ctx h =
      elim (Option-cases (Dict.lookup (D ModuleReport) ctx.modules (module_id_key id))) [
        | inl e ↦ ground (arith, e)
        | inr (mr, e) ↦
            rw (e, update_at)
              (ground (
                arith,
                Dict.lookup-insert (D ModuleReport) ctx.modules (module_id_key id) j
                    (keep_latest id.revision mr),
                e,
              ))
      ]

  pub mark_missing-has_report :
      (id : IvyModuleId) (key3 j : Bytes) (ctx : Walk D O)
      → has_report (mark_missing D O id key3 ctx) j ≡ has_report ctx j
  unfolding mark_missing
  mark_missing-has_report id key3 j ctx =
      elim (Bool-cases (has_error (Dict.lookup (D RevisionReport) ctx.revision_index key3))) [
        | inl e ↦ rw (e, mark_missing) refl
        | inr e ↦ rw (e, mark_missing) (update_at-keys ctx.revision_index key3 j _)
      ]
