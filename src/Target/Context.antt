-- ===== src/Target/Context.antt =====
-- The tables of `target_invoke` (src/target.c) before and after a successful call.
use mathlib.Core.Path.{subst}
use gantt.Prelude.{
  ℕ, zero, suc, ◌≡◌, refl, ◌⊎◌, Bool, true, false, some, List, [], ◌∷◌, ◌++◌, arith, if◌then◌else◌,
  get_elem?, Bool-cases, Option-cases, inl, inr, ◌∙◌, ap,
}
use gantt.Text.{Bytes, streq, streq_iff}
use gantt.Dict.{Dict}
use gantt.Target.{
  Target, Build, Outcome, done, fault, out_of_fuel, and_then, is_some, run_tasks, invoke_depends,
  enter, leave, invoke_found, target_invoke,
}

-- Inversion of a chain that ends in success.
pub and_then-done :
    {S : Type 0} (o : Outcome S) (next : S → Outcome S) {s' : S}
    → and_then o next ≡ done true s'
    → (s : S) × (o ≡ done true s) × (next s ≡ done true s')
unfolding and_then
and_then-done (done true s) next h = (s, refl, h)
and_then-done (done false s) next h = cc
and_then-done fault next h = cc
and_then-done out_of_fuel next h = cc

done-injective : {S : Type 0} {s t : S} → done true s ≡ done true t → s ≡ t
done-injective {S} {s} h = ap state h
  where
    state : Outcome S → S
    state (done b u) = u
    state fault = s
    state out_of_fuel = s

-- The three ways through `target_invoke`, when it succeeded.
guards-done :
    {S : Type 0} (a b : Bool) (s : S) (o : Outcome S) {s' : S}
    → (if a then done true s else if b then done false s else o) ≡ done true s'
    → ((a ≡ true) × (s ≡ s')) ⊎ ((a ≡ false) × (b ≡ false) × (o ≡ done true s'))
guards-done true b s o h = inl (refl, done-injective h)
guards-done false true s o h = cc
guards-done false false s o h = inr (refl, refl, h)

module _ {World Task : Type 0} (task_invoke : Task → World → Bool × World) (D : Dict ℕ)
    (targets : List (Target ℕ Task)) where
  abbrev pub in_context : Build D World → Bytes → Bool
  in_context build name = is_some (Dict.lookup D build.context name)

  abbrev pub is_completed : Build D World → Bytes → Bool
  is_completed build name = is_some (Dict.lookup D build.completed name)

  -- A success that goes on from one state to another.
  pub record Keeps (build build' : Build D World) : Type 0 where
    pub same_context : (n : Bytes) → in_context build' n ≡ in_context build n
    pub grows : (n : Bytes) → is_completed build n ≡ true → is_completed build' n ≡ true
    pub waits :
        (n : Bytes) → in_context build n ≡ true → is_completed build' n ≡ is_completed build n

  Keeps-refl : (build : Build D World) → Keeps build build
  Keeps-refl build = record { same_context = λ n. refl; grows = λ n h. h; waits = λ n h. refl }

  Keeps-trans : (a b c : Build D World) → Keeps a b → Keeps b c → Keeps a c
  Keeps-trans a b c p q = record {
    same_context = λ n. q.same_context n ∙ p.same_context n;
    grows = λ n h. q.grows n (p.grows n h);
    waits = λ n h. q.waits n (p.same_context n ∙ h) ∙ p.waits n h;
  }

  -- The state after the tasks of a target, when they succeeded.
  pub leave-done :
      (id : ℕ) (target : Target ℕ Task) (build : Build D World) {build' : Build D World}
      → leave task_invoke D id target build ≡ done true build'
      → (build'.context ≡ Dict.remove D build.context target.name)
        × (build'.completed ≡ Dict.insert D build.completed target.name id)
        × (build'.output ≡ build.output ++ target.name ∷ [])
  unfolding leave
  leave-done id target build h =
      elim (Bool-cases (run_tasks task_invoke target.task_list build.world).0) [
        | inl e ↦ ground arith
        | inr e ↦ ground arith
      ]

  pub in_context-enter :
      (id : ℕ) (target : Target ℕ Task) (build : Build D World) (n : Bytes)
      → in_context (enter task_invoke D id target build) n
        ≡ (if streq target.name n then true else in_context build n)
  unfolding enter is_some
  in_context-enter id target build n =
      rw (Dict.lookup-insert D build.context target.name n id) (ground arith)

  pub is_completed-enter :
      (id : ℕ) (target : Target ℕ Task) (build : Build D World) (n : Bytes)
      → is_completed (enter task_invoke D id target build) n ≡ is_completed build n
  unfolding enter
  is_completed-enter id target build n = refl

  pub in_context-leave :
      (id : ℕ) (target : Target ℕ Task) (build : Build D World) (n : Bytes) {build' : Build D World}
      → leave task_invoke D id target build ≡ done true build'
      → in_context build' n ≡ (if streq target.name n then false else in_context build n)
  unfolding is_some
  in_context-leave id target build n l =
      rw ((leave-done id target build l).0, Dict.lookup-remove D build.context target.name n)
        (ground arith)

  pub is_completed-leave :
      (id : ℕ) (target : Target ℕ Task) (build : Build D World) (n : Bytes) {build' : Build D World}
      → leave task_invoke D id target build ≡ done true build'
      → is_completed build' n ≡ (if streq target.name n then true else is_completed build n)
  unfolding is_some
  is_completed-leave id target build n l =
      rw ((leave-done id target build l).1, Dict.lookup-insert D build.completed target.name n id)
        (ground arith)

  -- Entering a target, its dependencies and leaving it, together.
  pub target-Keeps :
      (id : ℕ) (target : Target ℕ Task) (build inner build' : Build D World)
      → is_completed build target.name ≡ false
      → in_context build target.name ≡ false
      → Keeps (enter task_invoke D id target build) inner
      → leave task_invoke D id target inner ≡ done true build'
      → Keeps build build'
  target-Keeps id target build inner build' nc nx k l = record {
    same_context = λ n. ground (
      arith,
      in_context-leave id target inner n l,
      k.same_context n,
      in_context-enter id target build n,
      streq_iff target.name n,
    );
    grows = λ n h. ground (
      arith,
      is_completed-leave id target inner n l,
      k.grows n,
      is_completed-enter id target build n,
    );
    waits = λ n h. ground (
      arith,
      is_completed-leave id target inner n l,
      k.waits n,
      is_completed-enter id target build n,
      in_context-enter id target build n,
      streq_iff target.name n,
    );
  }

  -- The runs of `target_invoke` that succeed, as a big-step relation: a target is skipped, or run
  -- behind its dependencies.
  mutual
    pub data Run : ℕ → Build D World → Build D World → Type 0 where
      skip :
          {id : ℕ} {build : Build D World} (target : Target ℕ Task)
          → get_elem? targets id ≡ some target
          → is_completed build target.name ≡ true
          → Run id build build
      run :
          {id : ℕ} {build build' : Build D World} (target : Target ℕ Task) (inner : Build D World)
          → get_elem? targets id ≡ some target
          → is_completed build target.name ≡ false
          → in_context build target.name ≡ false
          → RunAll target.depends_list (enter task_invoke D id target build) inner
          → leave task_invoke D id target inner ≡ done true build'
          → Run id build build'

    pub data RunAll : List ℕ → Build D World → Build D World → Type 0 where
      finish : {build : Build D World} → RunAll [] build build
      next :
          {id : ℕ} {depends : List ℕ} {build middle build' : Build D World}
          → Run id build middle
          → RunAll depends middle build'
          → RunAll (id ∷ depends) build build'

  RunAll-of :
      (invoke : ℕ → Build D World → Outcome (Build D World))
      → ((id : ℕ) (build build' : Build D World)
          → invoke id build ≡ done true build'
          → Run id build build')
      → (depends : List ℕ) (build build' : Build D World)
      → invoke_depends task_invoke D invoke depends build ≡ done true build'
      → RunAll depends build build'
  unfolding invoke_depends
  RunAll-of invoke each [] build build' h = subst (RunAll [] build) (done-injective h) finish
  RunAll-of invoke each (id ∷ depends) build build' h =
      let (middle, first, rest) =
        and_then-done (invoke id build) (λ b. invoke_depends task_invoke D invoke depends b) h in
      next (each id build middle first) (RunAll-of invoke each depends middle build' rest)

  Run-of_found :
      (invoke : ℕ → Build D World → Outcome (Build D World))
      → ((id : ℕ) (build build' : Build D World)
          → invoke id build ≡ done true build'
          → Run id build build')
      → (id : ℕ) (target : Target ℕ Task) (build build' : Build D World)
      → get_elem? targets id ≡ some target
      → invoke_found task_invoke D invoke id target build ≡ done true build'
      → Run id build build'
  unfolding invoke_found
  Run-of_found invoke each id target build build' e h =
      elim (guards-done (is_completed build target.name) (in_context build target.name) build _ h) [
        | inl (c, same) ↦ subst (Run id build) same (skip target e c)
        | inr (c, x, o) ↦
            let (inner, all, l) = and_then-done _ (leave task_invoke D id target) o in
            run target inner e c x (RunAll-of invoke each target.depends_list _ inner all) l
      ]

  -- A success of `target_invoke` is a run.
  pub target_invoke-Run :
      (fuel id : ℕ) (build build' : Build D World)
      → target_invoke task_invoke D targets fuel id build ≡ done true build'
      → Run id build build'
  unfolding target_invoke
  target_invoke-Run zero id build build' h = cc
  target_invoke-Run (suc fuel) id build build' h = elim (Option-cases (get_elem? targets id)) [
    | inl e ↦ ground arith
    | inr (target, e) ↦
        Run-of_found (target_invoke task_invoke D targets fuel) (target_invoke-Run fuel) id target
          build build' e (rw (e, target_invoke) at h)
  ]

  mutual
    pub Run-Keeps :
        {id : ℕ} {build build' : Build D World} → Run id build build' → Keeps build build'
    Run-Keeps {build = build} (skip target e c) = Keeps-refl build
    Run-Keeps {id = id} {build = build} {build' = build'} (run target inner e c x all l) =
        target-Keeps id target build inner build' c x (RunAll-Keeps all) l

    pub RunAll-Keeps :
        {depends : List ℕ} {build build' : Build D World}
        → RunAll depends build build'
        → Keeps build build'
    RunAll-Keeps {build = build} finish = Keeps-refl build
    RunAll-Keeps {build = build} {build' = build'} (next {middle = middle} r all) =
        Keeps-trans build middle build' (Run-Keeps r) (RunAll-Keeps all)
