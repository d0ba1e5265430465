-- ===== src/Target/Pointers.antt =====
-- The targets of a project before and after it is resolved (src/project.c, src/parser.c).
use gantt.Prelude.{ℕ, ◌≡◌, refl, Option, some, List, [], ◌∷◌, map, Option-cases, inl, inr}
use gantt.Text.{Bytes}
use gantt.Dict.{Dict}
use gantt.Target.{
  Target, Resolution, resolved, no_target, resolve_cons, resolve_names, with_pointers,
  resolve_targets, target_table, resolve_project,
}

module _ (D : Dict ℕ) (t : Dict.Table D) where
  -- Where the names resolve, each is replaced in its place.
  abbrev NamesKept : List Bytes → Resolution (List ℕ) → Type 0
  NamesKept keys (resolved ids) = map (λ key. Dict.lookup D t key) keys ≡ map some ids
  NamesKept keys (no_target key) = Unit

  NamesKept-cons :
      (keys : List Bytes) (key : Bytes) (d : ℕ) (r : Resolution (List ℕ))
      → Dict.lookup D t key ≡ some d
      → NamesKept keys r
      → NamesKept (key ∷ keys) (resolve_cons d r)
  unfolding resolve_cons
  NamesKept-cons keys key d (resolved ids) e h = rw (e, h) refl
  NamesKept-cons keys key d (no_target missing) e h = tt

  resolve_names-NamesKept : (keys : List Bytes) → NamesKept keys (resolve_names D t keys)
  unfolding resolve_names
  resolve_names-NamesKept [] = refl
  resolve_names-NamesKept (key ∷ keys) = elim (Option-cases (Dict.lookup D t key)) [
    | inl e ↦ rw (e, resolve_names) tt
    | inr (d, e) ↦
        rw (e, resolve_names)
          (NamesKept-cons keys key d (resolve_names D t keys) e (resolve_names-NamesKept keys))
  ]

module _ {Task : Type 0} (D : Dict ℕ) (t : Dict.Table D) where
  -- A target's name, its tasks, and what the table has for its dependencies.
  abbrev pub looked_up : Target Bytes Task → Bytes × List Task × List (Option ℕ)
  looked_up source =
      (source.name, source.task_list, map (λ key. Dict.lookup D t key) source.depends_list)

  -- The same of a target that is resolved.
  abbrev pub pointed_to : Target ℕ Task → Bytes × List Task × List (Option ℕ)
  pointed_to target = (target.name, target.task_list, map some target.depends_list)

  -- Where the project resolves, target for target the same.
  abbrev pub TargetsKept : List (Target Bytes Task) → Resolution (List (Target ℕ Task)) → Type 0
  TargetsKept sources (resolved targets) = map looked_up sources ≡ map pointed_to targets
  TargetsKept sources (no_target key) = Unit

  TargetsKept-cons :
      (source : Target Bytes Task) (sources : List (Target Bytes Task)) (deps : List ℕ)
      (r : Resolution (List (Target ℕ Task)))
      → map (λ key. Dict.lookup D t key) source.depends_list ≡ map some deps
      → TargetsKept sources r
      → TargetsKept (source ∷ sources) (resolve_cons (with_pointers source deps) r)
  unfolding resolve_cons with_pointers
  TargetsKept-cons source sources deps (resolved targets) e h = rw (e, h) refl
  TargetsKept-cons source sources deps (no_target missing) e h = tt

  TargetsKept-step :
      (source : Target Bytes Task) (sources : List (Target Bytes Task))
      (names : Resolution (List ℕ)) (r : Resolution (List (Target ℕ Task)))
      → NamesKept D t source.depends_list names
      → TargetsKept sources r
      → TargetsKept (source ∷ sources) (elim names [
        | no_target missing ↦ no_target missing
        | resolved deps ↦ resolve_cons (with_pointers source deps) r
      ])
  TargetsKept-step source sources (resolved deps) r n h = TargetsKept-cons source sources deps r n h
  TargetsKept-step source sources (no_target missing) r n h = tt

  resolve_targets-TargetsKept :
      (sources : List (Target Bytes Task)) → TargetsKept sources (resolve_targets D t sources)
  unfolding resolve_targets
  resolve_targets-TargetsKept [] = refl
  resolve_targets-TargetsKept (source ∷ sources) =
      TargetsKept-step source sources (resolve_names D t source.depends_list)
        (resolve_targets D t sources) (resolve_names-NamesKept D t source.depends_list)
        (resolve_targets-TargetsKept sources)

-- Where resolving a project succeeds, it gives the same targets in the same order, with their names
-- and tasks, and each dependency is replaced in its place by what the project's table has for its
-- name; none is left out.
pub resolve_project-TargetsKept :
    {Task : Type 0} (D : Dict ℕ) (sources : List (Target Bytes Task))
    → TargetsKept D (target_table D sources) sources (resolve_project D sources)
unfolding resolve_project
resolve_project-TargetsKept D sources =
    resolve_targets-TargetsKept D (target_table D sources) sources
