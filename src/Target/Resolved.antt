-- ===== src/Target/Resolved.antt =====
-- What the project's table of targets holds, and the pointers that dependencies become
-- (src/project.c, src/parser.c).
use gantt.Prelude.{map, ℕ, ◌≡◌, ◌≢◌, Bool, none, some, List, get_elem?}
use gantt.Text.{Bytes}
use gantt.Dict.{Dict}
use gantt.Target.{Target, Resolution, resolved, no_target, target_table}
use gantt.Target.Order.{In, IsResolved}
use gantt.Target.Pointers.{looked_up, pointed_to}

module _ (D : Dict ℕ) where
  -- The outcome for the names of one target.
  abbrev NamesResolve : Dict.Table D → List Bytes → Resolution (List ℕ) → Type 0
  NamesResolve t keys (resolved ids) =
      (d : ℕ) → In d ids → (key : Bytes) × (Dict.lookup D t key ≡ some d)
  NamesResolve t keys (no_target key) = In key keys × (Dict.lookup D t key ≡ none)

module _ {Task : Type 0} (D : Dict ℕ) (t : Dict.Table D) where
  -- Name for name the same targets, with pointers from the table.
  record SameTargets (sources : List (Target Bytes Task)) (targets : List (Target ℕ Task))
      : Type 0 where
    there :
        (m : ℕ) (source : Target Bytes Task)
        → get_elem? sources m ≡ some source
        → (target : Target ℕ Task) × (get_elem? targets m ≡ some target)
          × (target.name ≡ source.name)
    pointers :
        (m : ℕ) (target : Target ℕ Task)
        → get_elem? targets m ≡ some target
        → (d : ℕ) → In d target.depends_list
        → (key : Bytes) × (Dict.lookup D t key ≡ some d)

  -- A dependency of some target that the table does not have.
  abbrev Missing : List (Target Bytes Task) → Bytes → Type 0
  Missing sources key =
      ((m : ℕ) × (source : Target Bytes Task) × (get_elem? sources m ≡ some source)
        × In key source.depends_list)
      × (Dict.lookup D t key ≡ none)

  abbrev TargetsResolve : List (Target Bytes Task) → Resolution (List (Target ℕ Task)) → Type 0
  TargetsResolve sources (resolved targets) = SameTargets sources targets
  TargetsResolve sources (no_target key) = Missing sources key

module _ {World Task : Type 0} (task_invoke : Task → World → Bool × World) (D : Dict ℕ) where
  -- What the outcome says of the project. On success there are the same targets, target for target
  -- and dependency for dependency: each dependency is the pointer that the table has for its name,
  -- and this is the place of a target of the project, with that name in the table. On failure some
  -- target depends on the missing name, and no target has it.
  abbrev pub ProjectResolves : List (Target Bytes Task) → Resolution (List (Target ℕ Task)) → Type 0
  ProjectResolves sources (resolved targets) =
      (map (looked_up D (target_table D sources)) sources
        ≡ map (pointed_to D (target_table D sources)) targets)
      × IsResolved task_invoke D targets (target_table D sources)
  ProjectResolves sources (no_target key) =
      ((m : ℕ) × (source : Target Bytes Task) × (get_elem? sources m ≡ some source)
        × In key source.depends_list)
      × ((m : ℕ) (source : Target Bytes Task)
          → get_elem? sources m ≡ some source
          → source.name ≢ key)
