-- ===== src/Examples/Builds.antt =====
-- A project of two targets, `jar` behind `compile`, whose tasks count.
use gantt.Prelude.{
  ℕ, zero, suc, ◌+◌, ◌≡◌, refl, sym, ◌∙◌, Bool, true, false, none, List, [], ◌∷◌, arith, inl, inr,
}
use mathlib.Core.Path.{subst}
use mathlib.Core.Option.{some-injective}
use gantt.Text.{Bytes, codes, streq}
use gantt.Dict.{Dict}
use gantt.Hashtable.Refines.{hashtable_dict}
use gantt.Target.{Target, Build, target_invoke, target_table, resolve_project, is_some}
use gantt.Target.Context.{Keeps, is_completed}
use gantt.Target.Order.{In, IsPointer, IsResolved, IsBuilt, target_invoke-IsBuilt}
use gantt.Target.Terminates.{IsClosed, Returns, target_invoke-Returns}
use gantt.Target.Succeeds.{IsRanked, Above, Succeeds, target_invoke-Succeeds}
use gantt.Target.Pointers.{TargetsKept, resolve_project-TargetsKept}

abbrev D : Dict ℕ
D = hashtable_dict ℕ

abbrev task_invoke : ℕ → ℕ → Bool × ℕ
task_invoke task world = (true, world + task)

abbrev target : {Ref : Type 0} → Bytes → List ℕ → List Ref → Target Ref ℕ
target name tasks depends = record {
  name = name;
  task_list = tasks;
  depends_list = depends;
  if_condition = none;
  unless_condition = none;
}

abbrev jar : Target ℕ ℕ
jar = target (codes "jar") (3 ∷ []) (0 ∷ [])

abbrev compile : Target ℕ ℕ
compile = target (codes "compile") (1 ∷ 2 ∷ []) []

abbrev targets : List (Target ℕ ℕ)
targets = compile ∷ jar ∷ []

abbrev target_dict : Dict.Table D
target_dict = Dict.insert D (Dict.insert D (Dict.empty D) (codes "compile") 0) (codes "jar") 1

abbrev start : Build D ℕ
start = record { context = Dict.empty D; completed = Dict.empty D; world = 0; output = [] }

compile-IsPointer : IsPointer task_invoke D targets target_dict 0 compile
unfolding streq
compile-IsPointer = (
  refl,
  Dict.lookup-insert D (Dict.insert D (Dict.empty D) (codes "compile") 0) (codes "jar")
        (codes "compile") 1
      ∙ Dict.lookup-insert D (Dict.empty D) (codes "compile") (codes "compile") 0,
)

jar-IsPointer : IsPointer task_invoke D targets target_dict 1 jar
unfolding streq
jar-IsPointer = (
  refl,
  Dict.lookup-insert D (Dict.insert D (Dict.empty D) (codes "compile") 0) (codes "jar")
      (codes "jar") 1,
)

abbrev Resolves : ℕ → Target ℕ ℕ → Type 0
Resolves d u = IsPointer task_invoke D targets target_dict d u

compile-depends :
    (t : Target ℕ ℕ) (d : ℕ) → compile ≡ t → In d t.depends_list → (u : Target ℕ ℕ) × Resolves d u
compile-depends t d e i = elim (subst (λ (x : Target ℕ ℕ). In d x.depends_list) (sym e) i) [ ]

jar-depends :
    (t : Target ℕ ℕ) (d : ℕ) → jar ≡ t → In d t.depends_list → (u : Target ℕ ℕ) × Resolves d u
jar-depends t d e i = elim (subst (λ (x : Target ℕ ℕ). In d x.depends_list) (sym e) i) [
  | inl same ↦ (compile, subst (λ n. Resolves n compile) same compile-IsPointer)
  | inr missing ↦ elim missing [ ]
]

targets-IsResolved : IsResolved task_invoke D targets target_dict
targets-IsResolved zero t e d i = compile-depends t d (some-injective _ _ e) i
targets-IsResolved (suc zero) t e d i = jar-depends t d (some-injective _ _ e) i
targets-IsResolved (suc (suc n)) t e d i = cc

targets-IsClosed : IsClosed task_invoke D targets
targets-IsClosed id t e d i = let (u, p) = targets-IsResolved id t e d i in (u, p.0)

targets-IsRanked : IsRanked task_invoke D targets target_dict (λ n. n)
targets-IsRanked zero t e d i =
    elim (subst (λ (x : Target ℕ ℕ). In d x.depends_list) (sym (some-injective _ _ e)) i) [ ]
targets-IsRanked (suc zero) t e d i =
    elim (subst (λ (x : Target ℕ ℕ). In d x.depends_list) (sym (some-injective _ _ e)) i) [
      | inl same ↦ omega arith
      | inr missing ↦ elim missing [ ]
    ]
targets-IsRanked (suc (suc n)) t e d i = cc

start-empty : (n : Bytes) → is_some (Dict.lookup D (Dict.empty D) n) ≡ false
unfolding is_some
start-empty n = rw (Dict.lookup-empty D n)

start-Above : Above task_invoke D targets target_dict (λ n. n) 1 start
start-Above id t p h = ground (arith, start-empty t.name)

start-IsBuilt : IsBuilt task_invoke D targets target_dict start
start-IsBuilt = record {
  printed = λ n h. ground (arith, start-empty n);
  finished = λ n i. elim i [ ];
  once = tt;
  ordered = tt;
}

-- The build of `jar`, with its result.
jar_built :
    Succeeds task_invoke D targets target_dict
      (λ n. n)
      (target_invoke task_invoke D targets 3 1 start)
jar_built =
    target_invoke-Succeeds task_invoke D targets target_dict (λ n. n) (λ task world. refl)
      targets-IsRanked targets-IsResolved 3 1 jar start jar-IsPointer (omega arith) start-Above

target_invoke-Succeeds_example :
    Succeeds task_invoke D targets target_dict
      (λ n. n)
      (target_invoke task_invoke D targets 3 1 start)
target_invoke-Succeeds_example =
    target_invoke-Succeeds task_invoke D targets target_dict (λ n. n) (λ task world. refl)
      targets-IsRanked targets-IsResolved 3 1 jar start jar-IsPointer (omega arith) start-Above

target_invoke-Returns_example :
    Returns task_invoke D targets (target_invoke task_invoke D targets 3 1 start)
target_invoke-Returns_example =
    target_invoke-Returns task_invoke D targets 1 jar start targets-IsClosed refl

target_invoke-IsBuilt_example :
    IsBuilt task_invoke D targets target_dict jar_built.0
    × (is_completed task_invoke D targets jar_built.0 (codes "jar") ≡ true)
    × Keeps task_invoke D targets start jar_built.0
target_invoke-IsBuilt_example =
    target_invoke-IsBuilt task_invoke D targets target_dict targets-IsResolved 3 1 jar start
      jar_built.0 jar-IsPointer start-IsBuilt jar_built.1

abbrev sources : List (Target Bytes ℕ)
sources =
    target (codes "compile") (1 ∷ 2 ∷ []) []
    ∷ target (codes "jar") (3 ∷ []) (codes "compile" ∷ [])
    ∷ []

resolve_project-TargetsKept_example :
    TargetsKept D (target_table D sources) sources (resolve_project D sources)
resolve_project-TargetsKept_example = resolve_project-TargetsKept D sources
