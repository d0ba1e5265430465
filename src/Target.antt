-- ===== src/Target.antt =====
-- Targets: the records of src/gantt.h, the list of dependencies that src/target.c reads from the
-- `depends` attribute, their resolution in src/project.c, and `target_invoke` of src/target.c.
-- A pointer to a target is its position in the project's `target_list`. What a task does is a
-- parameter, `task_invoke`, over a state `World` that stands for the project's properties and all
-- that is outside of gantt.
pub mod Context
pub mod Terminates
pub mod Order
pub mod Succeeds
pub mod Resolved
pub mod Pointers
use gantt.Prelude.{
  ℕ, zero, suc, ◌+◌, Bool, true, false, Option, none, some, List, [], ◌∷◌, ◌++◌, map, if◌then◌else◌,
  get_elem?,
}
use gantt.Text.{Bytes, codes, str_split, str_strip}
use gantt.Dict.{Dict}

-- `target_t`. A dependency is a name before the project resolves it, and a pointer afterwards.
pub record Target (Ref Task : Type 0) : Type 0 where
  pub name : Bytes
  pub task_list : List Task
  pub depends_list : List Ref
  pub if_condition : Option Bytes
  pub unless_condition : Option Bytes

-- The names in a `depends` attribute.
unfoldable pub depends_names : Option Bytes → List Bytes
depends_names none = []
depends_names (some val) = elim (str_split val (codes ",") 0) [
  | none ↦ []
  | some tokens ↦ map str_strip tokens
]

-- A build fails to start when a dependency names no target.
pub data Resolution (A : Type 0) : Type 0 where
  resolved : A → Resolution A
  no_target : Bytes → Resolution A

-- One more item in front of what the rest of a loop resolved.
unfoldable pub resolve_cons : {A : Type 0} → A → Resolution (List A) → Resolution (List A)
resolve_cons a (resolved rest) = resolved (a ∷ rest)
resolve_cons a (no_target missing) = no_target missing

module _ (D : Dict ℕ) where
  -- The inner loop that puts a pointer in the place of each name.
  unfoldable pub resolve_names : Dict.Table D → List Bytes → Resolution (List ℕ)
  resolve_names target_dict [] = resolved []
  resolve_names target_dict (key ∷ deps) = elim (Dict.lookup D target_dict key) [
    | none ↦ no_target key
    | some target_dep ↦ resolve_cons target_dep (resolve_names target_dict deps)
  ]

-- The target with its list of names replaced.
unfoldable pub with_pointers : {Task : Type 0} → Target Bytes Task → List ℕ → Target ℕ Task
with_pointers target deps = record {
  name = target.name;
  task_list = target.task_list;
  depends_list = deps;
  if_condition = target.if_condition;
  unless_condition = target.unless_condition;
}

module _ {Task : Type 0} (D : Dict ℕ) where
  -- The `hashtable_insert` calls, one for each target in the order of the file.
  unfoldable pub fill_dict : ℕ → List (Target Bytes Task) → Dict.Table D → Dict.Table D
  fill_dict i [] target_dict = target_dict
  fill_dict i (target ∷ rest) target_dict =
      fill_dict (suc i) rest (Dict.insert D target_dict target.name i)

  unfoldable pub resolve_targets :
      Dict.Table D → List (Target Bytes Task) → Resolution (List (Target ℕ Task))
  resolve_targets target_dict [] = resolved []
  resolve_targets target_dict (target ∷ rest) =
      elim (resolve_names D target_dict target.depends_list) [
        | no_target missing ↦ no_target missing
        | resolved deps ↦
            resolve_cons (with_pointers target deps) (resolve_targets target_dict rest)
      ]

  -- `project_init` and `parse_project`: the table is filled from all targets, then the dependencies
  -- are looked up in it.
  unfoldable pub target_table : List (Target Bytes Task) → Dict.Table D
  target_table targets = fill_dict 0 targets (Dict.empty D)

  unfoldable pub resolve_project : List (Target Bytes Task) → Resolution (List (Target ℕ Task))
  resolve_project targets = resolve_targets (target_table targets) targets

module _ (D : Dict ℕ) (World : Type 0) where
  -- What `target_invoke` changes: the two tables, what the tasks change, and the output, of which
  -- the names of the targets that are started are kept.
  pub record Build : Type 0 where
    pub context : Dict.Table D
    pub completed : Dict.Table D
    pub world : World
    pub output : List Bytes

-- `fault` is a read through a pointer to no target, `out_of_fuel` belongs to the model only.
pub data Outcome (S : Type 0) : Type 0 where
  done : Bool → S → Outcome S
  fault : Outcome S
  out_of_fuel : Outcome S

-- `return false` on failure, else what follows.
unfoldable pub and_then : {S : Type 0} → Outcome S → (S → Outcome S) → Outcome S
and_then (done true s) next = next s
and_then (done false s) next = done false s
and_then fault next = fault
and_then out_of_fuel next = out_of_fuel

unfoldable pub is_some : {A : Type 0} → Option A → Bool
is_some none = false
is_some (some a) = true

module _ {World Task : Type 0} (task_invoke : Task → World → Bool × World) where
  -- The loop over the tasks of a target.
  unfoldable pub run_tasks : List Task → World → Bool × World
  run_tasks [] world = (true, world)
  run_tasks (task ∷ list) world =
      let (ok, world') = task_invoke task world in
      let rest = run_tasks list world' in if ok then rest else (false, world')

  module _ (D : Dict ℕ) where
    -- The loop over the dependencies.
    unfoldable pub invoke_depends :
        (ℕ → Build D World → Outcome (Build D World))
        → List ℕ
        → Build D World
        → Outcome (Build D World)
    invoke_depends invoke [] build = done true build
    invoke_depends invoke (target ∷ depends) build =
        and_then (invoke target build) (λ build'. invoke_depends invoke depends build')

    unfoldable pub enter : ℕ → Target ℕ Task → Build D World → Build D World
    enter id target build = record build { context = Dict.insert D build.context target.name id }

    -- From `hashtable_remove` on: the name is printed and the tasks are run.
    unfoldable pub leave : ℕ → Target ℕ Task → Build D World → Outcome (Build D World)
    leave id target build =
        let (ok, world') = run_tasks target.task_list build.world in
        let build' : Build D World = record {
          context = Dict.remove D build.context target.name;
          completed = build.completed;
          world = world';
          output = build.output ++ target.name ∷ [];
        } in
        if ok
        then done true (record build' { completed = Dict.insert D build.completed target.name id })
        else done false build'

    unfoldable pub invoke_found :
        (ℕ → Build D World → Outcome (Build D World))
        → ℕ
        → Target ℕ Task
        → Build D World
        → Outcome (Build D World)
    invoke_found invoke id target build =
        if is_some (Dict.lookup D build.completed target.name)
        then done true build
        else if is_some (Dict.lookup D build.context target.name)
        then done false build
        else and_then (invoke_depends invoke target.depends_list (enter id target build))
            (leave id target)

    -- `target_invoke`, on fuel for the depth of the recursion.
    unfoldable pub target_invoke :
        List (Target ℕ Task) → ℕ → ℕ → Build D World → Outcome (Build D World)
    target_invoke targets zero id build = out_of_fuel
    target_invoke targets (suc fuel) id build = elim (get_elem? targets id) [
      | none ↦ fault
      | some target ↦ invoke_found (target_invoke targets fuel) id target build
    ]
