-- ===== src/Target/Succeeds.antt =====
-- Builds without circular dependencies, whose tasks succeed (src/target.c).
use gantt.Prelude.{
  ℕ, zero, suc, ◌<◌, ◌≡◌, refl, Bool, true, false, some, List, [], ◌∷◌, arith, if◌then◌else◌,
  get_elem?, Bool-cases, inl, inr, sym, ◌∙◌, ap,
}
use gantt.Text.{streq, streq_iff}
use gantt.Dict.{Dict}
use gantt.Target.{
  Target, Build, Outcome, done, and_then, enter, leave, run_tasks, invoke_depends, invoke_found,
  target_invoke,
}
use gantt.Target.Context.{in_context, is_completed, Run-Keeps, target_invoke-Run, in_context-enter}
use gantt.Target.Order.{In, IsPointer, IsResolved, same_id}

module _ {World Task : Type 0} (task_invoke : Task → World → Bool × World) (D : Dict ℕ)
    (targets : List (Target ℕ Task)) (target_dict : Dict.Table D) (rank : ℕ → ℕ) where
  -- Each dependency ranks below its target, so no chain of dependencies comes back.
  abbrev pub IsRanked : Type 0
  IsRanked =
      (id : ℕ) (target : Target ℕ Task)
      → get_elem? targets id ≡ some target
      → (d : ℕ) → In d target.depends_list
      → rank d < rank id

  -- All targets under way rank above `r`.
  abbrev pub Above : ℕ → Build D World → Type 0
  Above r build =
      (id : ℕ) (target : Target ℕ Task)
      → IsPointer task_invoke D targets target_dict id target
      → in_context task_invoke D targets build target.name ≡ true
      → r < rank id

  abbrev pub Succeeds : Outcome (Build D World) → Type 0
  Succeeds o = (build' : Build D World) × (o ≡ done true build')

  abbrev pub TasksSucceed : Type 0
  TasksSucceed = (task : Task) (world : World) → (task_invoke task world).0 ≡ true

  run_tasks-true :
      TasksSucceed
      → (list : List Task) (world : World) → (run_tasks task_invoke list world).0 ≡ true
  unfolding run_tasks
  run_tasks-true h [] world = refl
  run_tasks-true h (task ∷ list) world =
      ground (arith, h task world, run_tasks-true h list (task_invoke task world).1)

  if-Succeeds :
      (b : Bool) (s t : Build D World)
      → b ≡ true
      → Succeeds (if b then done true s else done false t)
  if-Succeeds true s t h = (s, refl)
  if-Succeeds false s t h = cc

  leave-Succeeds :
      (id : ℕ) (target : Target ℕ Task) (build : Build D World)
      → TasksSucceed
      → Succeeds (leave task_invoke D id target build)
  unfolding leave
  leave-Succeeds id target build h =
      if-Succeeds (run_tasks task_invoke target.task_list build.world).0 _ _
        (run_tasks-true h target.task_list build.world)

  and_then-Succeeds :
      (o : Outcome (Build D World)) (next : Build D World → Outcome (Build D World))
      → Succeeds o
      → ((build : Build D World) → o ≡ done true build → Succeeds (next build))
      → Succeeds (and_then o next)
  unfolding and_then
  and_then-Succeeds o next (build, e) h = rw (e, and_then) (h build e)

  guards-Succeeds :
      (a b : Bool) (s : Build D World) (o : Outcome (Build D World))
      → b ≡ false
      → Succeeds o
      → Succeeds (if a then done true s else if b then done false s else o)
  guards-Succeeds true b s o e h = (s, refl)
  guards-Succeeds false true s o e h = cc
  guards-Succeeds false false s o e h = h

  Above-enter :
      (id d : ℕ) (target : Target ℕ Task) (build : Build D World)
      → IsPointer task_invoke D targets target_dict id target
      → rank d < rank id
      → Above (rank id) build
      → Above (rank d) (enter task_invoke D id target build)
  Above-enter id d target build p below above id' t p' x =
      elim (Bool-cases (streq target.name t.name)) [
        | inl e ↦
            let same =
              same_id task_invoke D targets target_dict p p'
                (sym ((streq_iff target.name t.name).0 e)) in
            omega (arith, ap rank same)
        | inr e ↦ omega (
          arith,
          above id' t p'
              (ground (arith, in_context-enter task_invoke D targets id target build t.name)),
        )
      ]

  module _ (ok : TasksSucceed) (ranked : IsRanked)
      (resolved : IsResolved task_invoke D targets target_dict) where
    depends-Succeeds :
        (fuel : ℕ)
        → ((id : ℕ) (t : Target ℕ Task) (build : Build D World)
            → IsPointer task_invoke D targets target_dict id t
            → rank id < fuel
            → Above (rank id) build
            → Succeeds (target_invoke task_invoke D targets fuel id build))
        → (depends : List ℕ) (build : Build D World)
        → ((d : ℕ)
            → In d depends
            → ((u : Target ℕ Task) × IsPointer task_invoke D targets target_dict d u)
              × (rank d < fuel)
              × Above (rank d) build)
        → Succeeds
            (invoke_depends task_invoke D (target_invoke task_invoke D targets fuel) depends build)
    unfolding invoke_depends
    depends-Succeeds fuel each [] build c = (build, refl)
    depends-Succeeds fuel each (d ∷ depends) build c =
        let ((u, p), low, above) = c d (inl refl) in
        and_then-Succeeds (target_invoke task_invoke D targets fuel d build) _
          (each d u build p low above)
          (λ build' e.
            let k =
              Run-Keeps task_invoke D targets
                (target_invoke-Run task_invoke D targets fuel d build build' e) in
            depends-Succeeds fuel each depends build' (λ d' i.
              let (q, low', above') = c d' (inr i) in
              (q, low', λ id t r x. above' id t r (sym (k.same_context t.name) ∙ x))))

    found-Succeeds :
        (fuel id : ℕ) (target : Target ℕ Task) (build : Build D World)
        → ((id : ℕ) (t : Target ℕ Task) (build : Build D World)
            → IsPointer task_invoke D targets target_dict id t
            → rank id < fuel
            → Above (rank id) build
            → Succeeds (target_invoke task_invoke D targets fuel id build))
        → IsPointer task_invoke D targets target_dict id target
        → rank id < suc fuel
        → Above (rank id) build
        → Succeeds
            (invoke_found task_invoke D (target_invoke task_invoke D targets fuel) id target build)
    unfolding invoke_found
    found-Succeeds fuel id target build each p low above =
        guards-Succeeds (is_completed task_invoke D targets build target.name)
          (in_context task_invoke D targets build target.name) build _ not_under_way
          (and_then-Succeeds _ _
            (depends-Succeeds fuel each target.depends_list (enter task_invoke D id target build)
              (λ d i.
                let below = ranked id target p.0 d i in
                (
                  resolved id target p.0 d i,
                  omega arith,
                  Above-enter id d target build p below above,
                )))
            (λ inner _. leave-Succeeds id target inner ok))
      where
        not_under_way : in_context task_invoke D targets build target.name ≡ false
        not_under_way = elim (Bool-cases (in_context task_invoke D targets build target.name)) [
          | inl x ↦ absurd (omega (arith, above id target p x))
          | inr x ↦ x
        ]

    -- In a project whose dependencies are resolved and go down in rank, with tasks that succeed,
    -- `target_invoke` on a pointer of the project succeeds when all targets under way rank above
    -- it. A recursion one deeper than the rank is enough.
    pub target_invoke-Succeeds :
        (fuel id : ℕ) (target : Target ℕ Task) (build : Build D World)
        → IsPointer task_invoke D targets target_dict id target
        → rank id < fuel
        → Above (rank id) build
        → Succeeds (target_invoke task_invoke D targets fuel id build)
    unfolding target_invoke
    target_invoke-Succeeds zero id target build p low above = absurd (omega arith)
    target_invoke-Succeeds (suc fuel) id target build p low above =
        rw (p.0, target_invoke)
          (found-Succeeds fuel id target build (target_invoke-Succeeds fuel) p low above)
