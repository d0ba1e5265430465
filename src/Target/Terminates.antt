-- ===== src/Target/Terminates.antt =====
-- The depth of the recursion of `target_invoke` (src/target.c): each call under way holds a
-- target that is not under way above it.
use mathlib.Core.Option.{some-injective}
use gantt.Prelude.{
  ℕ, zero, suc, ◌<◌, ◌≤◌, ◌≡◌, refl, Bool, true, false, some, List, [], ◌∷◌, arith, if◌then◌else◌,
  get_elem?, length, inl, inr, ◌∙◌, ap,
}
use gantt.Text.{Bytes, streq_refl}
use gantt.Dict.{Dict}
use gantt.Target.{
  Target, Build, Outcome, done, and_then, enter, leave, run_tasks, invoke_depends, invoke_found,
  target_invoke,
}
use gantt.Target.Context.{
  in_context, is_completed, Keeps, Run-Keeps, target_invoke-Run, in_context-enter,
}
use gantt.Target.Order.{In}

module _ {Ref Task : Type 0} where
  -- The number of targets in the list that are not under way.
  pub unvisited : List (Target Ref Task) → (Bytes → Bool) → ℕ
  unvisited [] visited = 0
  unvisited (t ∷ targets) visited =
      if visited t.name then unvisited targets visited else suc (unvisited targets visited)

  unvisited-le-length :
      (targets : List (Target Ref Task)) (f : Bytes → Bool) → unvisited targets f ≤ length targets
  unfolding unvisited
  unvisited-le-length [] f = omega arith
  unvisited-le-length (t ∷ targets) f = ground (arith, unvisited-le-length targets f)

  unvisited_mono :
      (targets : List (Target Ref Task)) (f g : Bytes → Bool)
      → ((n : Bytes) → f n ≡ true → g n ≡ true)
      → unvisited targets g ≤ unvisited targets f
  unfolding unvisited
  unvisited_mono [] f g h = omega arith
  unvisited_mono (t ∷ targets) f g h = ground (arith, h t.name, unvisited_mono targets f g h)

  unvisited-lt :
      (targets : List (Target Ref Task)) (id : ℕ) (t : Target Ref Task) (f g : Bytes → Bool)
      → get_elem? targets id ≡ some t
      → ((n : Bytes) → f n ≡ true → g n ≡ true)
      → f t.name ≡ false
      → g t.name ≡ true
      → unvisited targets g < unvisited targets f
  unfolding unvisited
  unvisited-lt [] id t f g e h no_f yes_g = cc
  unvisited-lt (u ∷ targets) zero t f g e h no_f yes_g =
      let same = ap (λ (v : Target Ref Task). v.name) (some-injective _ _ e) in
      ground (arith, unvisited_mono targets f g h, ap f same, ap g same)
  unvisited-lt (u ∷ targets) (suc id) t f g e h no_f yes_g =
      ground (arith, h u.name, unvisited-lt targets id t f g e h no_f yes_g)

module _ {World Task : Type 0} (task_invoke : Task → World → Bool × World) (D : Dict ℕ)
    (targets : List (Target ℕ Task)) where
  -- Every dependency points to a target.
  abbrev pub IsClosed : Type 0
  IsClosed =
      (id : ℕ) (target : Target ℕ Task)
      → get_elem? targets id ≡ some target
      → (d : ℕ) → In d target.depends_list
      → (u : Target ℕ Task) × (get_elem? targets d ≡ some u)

  abbrev left_over : Build D World → ℕ
  left_over build = unvisited targets (in_context task_invoke D targets build)

  -- The call came back.
  abbrev pub Returns : Outcome (Build D World) → Type 0
  Returns o = (ok : Bool) × (build' : Build D World) × (o ≡ done ok build')

  left_over-Keeps :
      (build build' : Build D World)
      → Keeps task_invoke D targets build build'
      → left_over build' ≤ left_over build
  left_over-Keeps build build' k = unvisited_mono targets _ _ (λ n h. k.same_context n ∙ h)

  left_over-enter :
      (id : ℕ) (target : Target ℕ Task) (build : Build D World)
      → get_elem? targets id ≡ some target
      → in_context task_invoke D targets build target.name ≡ false
      → left_over (enter task_invoke D id target build) < left_over build
  left_over-enter id target build e x =
      unvisited-lt targets id target _ _ e
        (λ n h. ground (arith, in_context-enter task_invoke D targets id target build n)) x
        (ground (
          arith,
          in_context-enter task_invoke D targets id target build target.name,
          streq_refl target.name,
        ))

  if-Returns : (b : Bool) (s t : Build D World) → Returns (if b then done true s else done false t)
  if-Returns true s t = (true, s, refl)
  if-Returns false s t = (false, t, refl)

  guards-Returns :
      (a b : Bool) (s : Build D World) (o : Outcome (Build D World))
      → (b ≡ false → Returns o)
      → Returns (if a then done true s else if b then done false s else o)
  guards-Returns true b s o h = (true, s, refl)
  guards-Returns false true s o h = (false, s, refl)
  guards-Returns false false s o h = h refl

  leave-Returns :
      (id : ℕ) (target : Target ℕ Task) (build : Build D World)
      → Returns (leave task_invoke D id target build)
  unfolding leave
  leave-Returns id target build =
      if-Returns (run_tasks task_invoke target.task_list build.world).0 _ _

  and_then-Returns :
      (o : Outcome (Build D World)) (next : Build D World → Outcome (Build D World))
      → Returns o
      → ((build : Build D World) → o ≡ done true build → Returns (next build))
      → Returns (and_then o next)
  unfolding and_then
  and_then-Returns o next (true, build, e) h = rw (e, and_then) (h build e)
  and_then-Returns o next (false, build, e) h = (false, build, rw (e, and_then))

  depends-Returns :
      (fuel : ℕ)
      → ((id : ℕ) (t : Target ℕ Task) (build : Build D World)
          → get_elem? targets id ≡ some t
          → left_over build < fuel
          → Returns (target_invoke task_invoke D targets fuel id build))
      → (depends : List ℕ) (build : Build D World)
      → ((d : ℕ) → In d depends → (u : Target ℕ Task) × (get_elem? targets d ≡ some u))
      → left_over build < fuel
      → Returns
          (invoke_depends task_invoke D (target_invoke task_invoke D targets fuel) depends build)
  unfolding invoke_depends
  depends-Returns fuel each [] build c h = (true, build, refl)
  depends-Returns fuel each (d ∷ depends) build c h =
      and_then-Returns (target_invoke task_invoke D targets fuel d build) _
        (each d (c d (inl refl)).0 build (c d (inl refl)).1 h)
        (λ build' e.
          let k =
            Run-Keeps task_invoke D targets
              (target_invoke-Run task_invoke D targets fuel d build build' e) in
          depends-Returns fuel each depends build' (λ d' i. c d' (inr i))
            (omega (arith, left_over-Keeps build build' k)))

  found-Returns :
      (fuel id : ℕ) (target : Target ℕ Task) (build : Build D World)
      → ((id : ℕ) (t : Target ℕ Task) (build : Build D World)
          → get_elem? targets id ≡ some t
          → left_over build < fuel
          → Returns (target_invoke task_invoke D targets fuel id build))
      → IsClosed
      → get_elem? targets id ≡ some target
      → left_over build < suc fuel
      → Returns
          (invoke_found task_invoke D (target_invoke task_invoke D targets fuel) id target build)
  unfolding invoke_found
  found-Returns fuel id target build each c e h =
      guards-Returns (is_completed task_invoke D targets build target.name)
        (in_context task_invoke D targets build target.name) build _
        (λ x.
          and_then-Returns _ _
            (depends-Returns fuel each target.depends_list (enter task_invoke D id target build)
              (c id target e) (omega (arith, left_over-enter id target build e x)))
            (λ inner _. leave-Returns id target inner))

  invoke-Returns :
      (fuel id : ℕ) (target : Target ℕ Task) (build : Build D World)
      → IsClosed
      → get_elem? targets id ≡ some target
      → left_over build < fuel
      → Returns (target_invoke task_invoke D targets fuel id build)
  unfolding target_invoke
  invoke-Returns zero id target build c e h = absurd (omega arith)
  invoke-Returns (suc fuel) id target build c e h =
      rw (e, target_invoke)
        (found-Returns fuel id target build (λ id t b e. invoke-Returns fuel id t b c e) c e h)

  -- Where every dependency points to a target of the project, circular or not, `target_invoke`
  -- comes back with success or failure: a recursion one deeper than there are targets is enough,
  -- whatever the tasks do.
  pub target_invoke-Returns :
      (id : ℕ) (target : Target ℕ Task) (build : Build D World)
      → IsClosed
      → get_elem? targets id ≡ some target
      → Returns (target_invoke task_invoke D targets (suc (length targets)) id build)
  target_invoke-Returns id target build c e =
      invoke-Returns (suc (length targets)) id target build c e
        (omega (arith, unvisited-le-length targets (in_context task_invoke D targets build)))
