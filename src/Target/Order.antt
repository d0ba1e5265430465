-- ===== src/Target/Order.antt =====
-- The order in which a build runs its targets (src/target.c).
use mathlib.Core.List.{append_assoc, append-nil}
use gantt.Prelude.{
  ℕ, ◌≡◌, refl, ◌⊎◌, Bool, true, false, some, List, [], ◌∷◌, ◌++◌, arith, get_elem?, Bool-cases,
  inl, inr, sym, ◌∙◌, ap,
}
use mathlib.Core.Path.{subst}
use mathlib.Core.Option.{some-injective}
use gantt.Text.{Bytes, streq, streq_iff, streq_refl}
use gantt.Dict.{Dict}
use gantt.Target.{Target, Build, done, enter, leave, target_invoke}
use gantt.Target.Context.{
  is_completed, Keeps, Run, skip, run, RunAll, finish, next, Run-Keeps, RunAll-Keeps,
  target_invoke-Run, leave-done, is_completed-leave, is_completed-enter, in_context-enter,
}
pub use gantt.Prelude.{In}

abbrev pub Once : List Bytes → Type 0
Once [] = Unit
Once (n ∷ xs) = (¬ In n xs) × Once xs

pub In-append_left : (n : Bytes) (xs ys : List Bytes) → In n xs → In n (xs ++ ys)
In-append_left n [] ys h = absurd h
In-append_left n (x ∷ xs) ys (inl e) = inl e
In-append_left n (x ∷ xs) ys (inr h) = inr (In-append_left n xs ys h)

pub In-append_last : (n : Bytes) (xs : List Bytes) → In n (xs ++ n ∷ [])
In-append_last n [] = inl refl
In-append_last n (x ∷ xs) = inr (In-append_last n xs)

pub In-append_inv : (n m : Bytes) (xs : List Bytes) → In n (xs ++ m ∷ []) → In n xs ⊎ (m ≡ n)
In-append_inv n m [] (inl e) = inr e
In-append_inv n m [] (inr h) = absurd h
In-append_inv n m (x ∷ xs) (inl e) = inl (inl e)
In-append_inv n m (x ∷ xs) (inr h) = elim (In-append_inv n m xs h) [
  | inl i ↦ inl (inr i)
  | inr e ↦ inr e
]

pub Once-append : (n : Bytes) (xs : List Bytes) → Once xs → ¬ In n xs → Once (xs ++ n ∷ [])
Once-append n [] o h = (λ i. i, tt)
Once-append n (x ∷ xs) o h = (
  λ i. elim (In-append_inv x n xs i) [ inl j ↦ o.0 j | inr e ↦ h (inl (sym e)) ],
  Once-append n xs o.1 (λ i. h (inr i)),
)

module _ {World Task : Type 0} (task_invoke : Task → World → Bool × World) (D : Dict ℕ)
    (targets : List (Target ℕ Task)) (target_dict : Dict.Table D) where
  -- The pointer that the project has for the name of the target.
  abbrev pub IsPointer : ℕ → Target ℕ Task → Type 0
  IsPointer id target =
      (get_elem? targets id ≡ some target) × (Dict.lookup D target_dict target.name ≡ some id)

  -- All dependencies were resolved through the project's table.
  abbrev pub IsResolved : Type 0
  IsResolved =
      (id : ℕ) (target : Target ℕ Task)
      → get_elem? targets id ≡ some target
      → (d : ℕ) → In d target.depends_list
      → (u : Target ℕ Task) × IsPointer d u

  -- The dependencies of the target that the name stands for are in the list.
  abbrev pub Behind : List Bytes → Bytes → Type 0
  Behind seen n =
      (id : ℕ) (target : Target ℕ Task)
      → IsPointer id target
      → target.name ≡ n
      → (d : ℕ) → In d target.depends_list
      → (u : Target ℕ Task) → get_elem? targets d ≡ some u
      → In u.name seen

  -- In a list of names, each stands behind its dependencies.
  abbrev pub IsOrdered : List Bytes → List Bytes → Type 0
  IsOrdered seen [] = Unit
  IsOrdered seen (n ∷ names) = Behind seen n × IsOrdered (seen ++ n ∷ []) names

  IsOrdered-append :
      (seen names : List Bytes) (n : Bytes)
      → IsOrdered seen names
      → Behind (seen ++ names) n
      → IsOrdered seen (names ++ n ∷ [])
  IsOrdered-append seen [] n o b = (rw append-nil at b, tt)
  IsOrdered-append seen (m ∷ names) n o b =
      (o.0, IsOrdered-append (seen ++ m ∷ []) names n o.1 (rw append_assoc b))

  -- The completed targets are those whose names were printed, each once and each behind its
  -- dependencies.
  pub record IsBuilt (build : Build D World) : Type 0 where
    pub printed :
        (n : Bytes) → is_completed task_invoke D targets build n ≡ true → In n build.output
    pub finished :
        (n : Bytes) → In n build.output → is_completed task_invoke D targets build n ≡ true
    pub once : Once build.output
    pub ordered : IsOrdered [] build.output

  Run-completed :
      {id : ℕ} {build build' : Build D World} (target : Target ℕ Task)
      → get_elem? targets id ≡ some target
      → Run task_invoke D targets id build build'
      → is_completed task_invoke D targets build' target.name ≡ true
  Run-completed {build = build} target e (skip t e' c) =
      subst (λ (u : Target ℕ Task). is_completed task_invoke D targets build u.name ≡ true)
        (some-injective _ _ (sym e' ∙ e)) c
  Run-completed {id} {build' = build'} target e (run t inner e' c x all l) =
      subst (λ (u : Target ℕ Task). is_completed task_invoke D targets build' u.name ≡ true)
        (some-injective _ _ (sym e' ∙ e))
        (ground
          (arith, is_completed-leave task_invoke D targets id t inner t.name l, streq_refl t.name))

  RunAll-completed :
      {depends : List ℕ} {build build' : Build D World}
      → RunAll task_invoke D targets depends build build'
      → (d : ℕ) → In d depends
      → (u : Target ℕ Task) → get_elem? targets d ≡ some u
      → is_completed task_invoke D targets build' u.name ≡ true
  RunAll-completed finish d i u e = absurd i
  RunAll-completed {build' = build'} (next {middle = middle} r all) d (inl same) u e =
      (RunAll-Keeps task_invoke D targets all).grows u.name (
        subst (λ k. is_completed task_invoke D targets middle u.name ≡ true) same
          (Run-completed u (ap (get_elem? targets) same ∙ e) r))
  RunAll-completed (next r all) d (inr i) u e = RunAll-completed all d i u e

  enter-IsBuilt :
      (id : ℕ) (target : Target ℕ Task) (build : Build D World)
      → IsBuilt build
      → IsBuilt (enter task_invoke D id target build)
  unfolding enter
  enter-IsBuilt id target build v = record {
    printed = v.printed;
    finished = v.finished;
    once = v.once;
    ordered = v.ordered;
  }

  -- Two pointers to targets of one name are one.
  pub same_id :
      {id id' : ℕ} {target target' : Target ℕ Task}
      → IsPointer id target
      → IsPointer id' target'
      → target'.name ≡ target.name
      → id' ≡ id
  same_id p p' same =
      some-injective _ _ (sym p'.1 ∙ ap (λ n. Dict.lookup D target_dict n) same ∙ p.1)

  same_target :
      {id id' : ℕ} {target target' : Target ℕ Task}
      → IsPointer id target
      → IsPointer id' target'
      → target'.name ≡ target.name
      → target' ≡ target
  same_target p p' same =
      some-injective _ _ (sym p'.0 ∙ ap (get_elem? targets) (same_id p p' same) ∙ p.0)

  module _ (id : ℕ) (target : Target ℕ Task) (build inner build' : Build D World)
      (p : IsPointer id target) (c : is_completed task_invoke D targets build target.name ≡ false)
      (k : Keeps task_invoke D targets (enter task_invoke D id target build) inner)
      (all : RunAll task_invoke D targets target.depends_list
        (enter task_invoke D id target build)
        inner)
      (v : IsBuilt inner) (l : leave task_invoke D id target inner ≡ done true build') where
    out : build'.output ≡ inner.output ++ target.name ∷ []
    out = (leave-done task_invoke D targets id target inner l).2

    leave-printed :
        (n : Bytes) → is_completed task_invoke D targets build' n ≡ true → In n build'.output
    leave-printed n h = elim (Bool-cases (streq target.name n)) [
      | inl e ↦ rw (out, ← (streq_iff target.name n).0 e) (In-append_last target.name inner.output)
      | inr e ↦ rw out (
          In-append_left n inner.output (target.name ∷ []) (
            v.printed n
              (ground (arith, is_completed-leave task_invoke D targets id target inner n l))))
    ]

    leave-finished :
        (n : Bytes) → In n build'.output → is_completed task_invoke D targets build' n ≡ true
    leave-finished n h = elim (In-append_inv n target.name inner.output (rw out at h)) [
      | inl i ↦
          ground
            (arith, v.finished n i, is_completed-leave task_invoke D targets id target inner n l)
      | inr e ↦ ground (
        arith,
        streq_iff target.name n,
        is_completed-leave task_invoke D targets id target inner n l,
      )
    ]

    leave-fresh : ¬ In target.name inner.output
    leave-fresh i = ground (
      arith,
      v.finished target.name i,
      k.waits target.name,
      in_context-enter task_invoke D targets id target build target.name,
      is_completed-enter task_invoke D targets id target build target.name,
      streq_refl target.name,
    )

    leave-Behind : Behind inner.output target.name
    leave-Behind id' t p' same d i u e = v.printed u.name (
        RunAll-completed all d
          (subst (λ (r : Target ℕ Task). In d r.depends_list) (same_target p p' same) i) u e)

    leave-IsBuilt : IsBuilt build'
    leave-IsBuilt = record {
      printed = leave-printed;
      finished = leave-finished;
      once = rw out (Once-append target.name inner.output v.once leave-fresh);
      ordered = rw out (IsOrdered-append [] inner.output target.name v.ordered leave-Behind);
    }

  module _ (resolved : IsResolved) where
    mutual
      Run-IsBuilt :
          {id : ℕ} {build build' : Build D World} (target : Target ℕ Task)
          → IsPointer id target
          → Run task_invoke D targets id build build'
          → IsBuilt build
          → IsBuilt build'
      Run-IsBuilt target p (skip t e c) v = v
      Run-IsBuilt {id} {build} {build'} target p (run t inner e c x all l) v =
          let p' : IsPointer id t = subst (IsPointer id) (some-injective _ _ (sym p.0 ∙ e)) p in
          leave-IsBuilt id t build inner build' p' c (RunAll-Keeps task_invoke D targets all) all
            (RunAll-IsBuilt (resolved id t e) all (enter-IsBuilt id t build v)) l

      RunAll-IsBuilt :
          {depends : List ℕ} {build build' : Build D World}
          → ((d : ℕ) → In d depends → (u : Target ℕ Task) × IsPointer d u)
          → RunAll task_invoke D targets depends build build'
          → IsBuilt build
          → IsBuilt build'
      RunAll-IsBuilt r finish v = v
      RunAll-IsBuilt {depends = id ∷ depends} r (next first all) v =
          RunAll-IsBuilt (λ d i. r d (inr i)) all
            (Run-IsBuilt (r id (inl refl)).0 (r id (inl refl)).1 first v)

    -- In a project whose dependencies are resolved, `target_invoke` on a pointer of the project
    -- that succeeds leaves its target completed, loses no completed target, and keeps the build in
    -- order: the completed targets are those whose names were printed, each printed once and
    -- behind all of its dependencies.
    pub target_invoke-IsBuilt :
        (fuel id : ℕ) (target : Target ℕ Task) (build build' : Build D World)
        → IsPointer id target
        → IsBuilt build
        → target_invoke task_invoke D targets fuel id build ≡ done true build'
        → IsBuilt build'
          × (is_completed task_invoke D targets build' target.name ≡ true)
          × Keeps task_invoke D targets build build'
    target_invoke-IsBuilt fuel id target build build' p v h =
        let r = target_invoke-Run task_invoke D targets fuel id build build' h in
        (Run-IsBuilt target p r v, Run-completed target p.0 r, Run-Keeps task_invoke D targets r)
