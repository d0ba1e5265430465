-- ===== src/Paths/References.antt =====
-- References between path structures (src/path.c).
use gantt.Prelude.{
  ℕ, zero, suc, ◌<◌, ◌≡◌, ◌⊎◌, refl, Option, none, some, List, [], ◌∷◌, ◌++◌, arith, inl, inr,
  Option-cases,
}
use gantt.Text.{Bytes}
use gantt.Dict.{Dict}
use gantt.Paths.{
  FilePath, path_element, path_fileset, path_reference, path_inline, PathList, nil, cons,
  append_entries, one_entry, resolve_element, resolve_list, resolve_reference, resolve_path,
}

module _ {Fileset : Type 0} where
  -- The path refers to the name, in a nested path too.
  abbrev mutual
    pub Refers : Bytes → FilePath Fileset → Type 0
    Refers refid (path_element text) = ⊥
    Refers refid (path_fileset fileset) = ⊥
    Refers refid (path_reference other) = other ≡ refid
    Refers refid (path_inline path_list) = RefersIn refid path_list

    pub RefersIn : Bytes → PathList Fileset → Type 0
    RefersIn refid nil = ⊥
    RefersIn refid (cons path path_list) = Refers refid path ⊎ RefersIn refid path_list

append_entries-none : (entries : Option (List Bytes)) → append_entries entries none ≡ none
unfolding append_entries
append_entries-none none = refl
append_entries-none (some entries) = refl

append_entries-some :
    (a b : Option (List Bytes)) (x y : List Bytes)
    → a ≡ some x
    → b ≡ some y
    → append_entries a b ≡ some (x ++ y)
unfolding append_entries
append_entries-some a b x y p q = rw (p, q) refl

module _ {Fileset : Type 0} (resolve : Bytes → Option Bytes)
    (resolve_fileset : Fileset → List Bytes) where
  mutual
    unfolding resolve_element resolve_list append_entries

    element-stuck :
        (refer : Bytes → Option (List Bytes)) (refid : Bytes)
        → refer refid ≡ none
        → (path : FilePath Fileset) → Refers refid path
        → resolve_element resolve resolve_fileset refer path ≡ none
    element-stuck refer refid h (path_element text) i = absurd i
    element-stuck refer refid h (path_fileset fileset) i = absurd i
    element-stuck refer refid h (path_reference other) i = rw i h
    element-stuck refer refid h (path_inline path_list) i = list-stuck refer refid h path_list i

    list-stuck :
        (refer : Bytes → Option (List Bytes)) (refid : Bytes)
        → refer refid ≡ none
        → (path_list : PathList Fileset) → RefersIn refid path_list
        → resolve_list resolve resolve_fileset refer path_list ≡ none
    list-stuck refer refid h nil i = absurd i
    list-stuck refer refid h (cons path path_list) (inl i) =
        rw (element-stuck refer refid h path i) refl
    list-stuck refer refid h (cons path path_list) (inr i) =
        rw (list-stuck refer refid h path_list i) (append_entries-none _)

  module _ (D : Dict (PathList Fileset)) (path_dict : Dict.Table D) where
    -- References that go on forever: each of them names a path that refers to one of them.
    abbrev pub IsEndless : (Bytes → Type 0) → Type 0
    IsEndless refids =
        (refid : Bytes)
        → refids refid
        → (path_list : PathList Fileset) × (next : Bytes) × (Dict.lookup D path_dict refid
            ≡ some path_list)
          × RefersIn next path_list
          × refids next

    reference-stuck :
        (refids : Bytes → Type 0)
        → IsEndless refids
        → (fuel : ℕ) (refid : Bytes) → refids refid
        → resolve_reference resolve resolve_fileset D path_dict fuel refid ≡ none
    unfolding resolve_reference
    reference-stuck refids endless zero refid i = refl
    reference-stuck refids endless (suc fuel) refid i =
        let (path_list, next, e, refers, j) = endless refid i in
        rw (e, resolve_reference)
          (list-stuck (resolve_reference resolve resolve_fileset D path_dict fuel) next
            (reference-stuck refids endless fuel next j) path_list refers)

    -- A path that refers to a path of a cycle is not resolved at any depth of recursion: nothing
    -- guards `resolve_path` against circular references.
    pub resolve_path-circular :
        (refids : Bytes → Type 0)
        → IsEndless refids
        → (refid : Bytes) → refids refid
        → (path_list : PathList Fileset) → RefersIn refid path_list
        → (fuel : ℕ) → resolve_path resolve resolve_fileset D path_dict fuel path_list ≡ none
    unfolding resolve_path
    resolve_path-circular refids endless refid i path_list refers fuel =
        list-stuck (resolve_reference resolve resolve_fileset D path_dict fuel) refid
          (reference-stuck refids endless fuel refid i) path_list refers

    -- The text elements of a path can be resolved, and its references have lower ranks.
    abbrev mutual
      pub RanksBelow : (Bytes → ℕ) → ℕ → FilePath Fileset → Type 0
      RanksBelow rank n (path_element text) = (entry : Bytes) × (resolve text ≡ some entry)
      RanksBelow rank n (path_fileset fileset) = Unit
      RanksBelow rank n (path_reference refid) = rank refid < n
      RanksBelow rank n (path_inline path_list) = AllRankBelow rank n path_list

      pub AllRankBelow : (Bytes → ℕ) → ℕ → PathList Fileset → Type 0
      AllRankBelow rank n nil = Unit
      AllRankBelow rank n (cons path path_list) =
          RanksBelow rank n path × AllRankBelow rank n path_list

    abbrev pub IsRanked : (Bytes → ℕ) → Type 0
    IsRanked rank =
        (refid : Bytes) (path_list : PathList Fileset)
        → Dict.lookup D path_dict refid ≡ some path_list
        → AllRankBelow rank (rank refid) path_list

    abbrev Resolves : Option (List Bytes) → Type 0
    Resolves o = (entries : List Bytes) × (o ≡ some entries)

    mutual
      unfolding resolve_element resolve_list one_entry

      element-Resolves :
          (refer : Bytes → Option (List Bytes)) (rank : Bytes → ℕ) (n : ℕ)
          → ((refid : Bytes) → rank refid < n → Resolves (refer refid))
          → (path : FilePath Fileset) → RanksBelow rank n path
          → Resolves (resolve_element resolve resolve_fileset refer path)
      element-Resolves refer rank n h (path_element text) (entry, e) = (entry ∷ [], rw e refl)
      element-Resolves refer rank n h (path_fileset fileset) r = (resolve_fileset fileset, refl)
      element-Resolves refer rank n h (path_reference refid) r = h refid r
      element-Resolves refer rank n h (path_inline path_list) r =
          list-Resolves refer rank n h path_list r

      list-Resolves :
          (refer : Bytes → Option (List Bytes)) (rank : Bytes → ℕ) (n : ℕ)
          → ((refid : Bytes) → rank refid < n → Resolves (refer refid))
          → (path_list : PathList Fileset) → AllRankBelow rank n path_list
          → Resolves (resolve_list resolve resolve_fileset refer path_list)
      list-Resolves refer rank n h nil r = ([], refl)
      list-Resolves refer rank n h (cons path path_list) r =
          let (x, p) = element-Resolves refer rank n h path r.0 in
          let (y, q) = list-Resolves refer rank n h path_list r.1 in
          (x ++ y, append_entries-some _ _ x y p q)

    reference-Resolves :
        (rank : Bytes → ℕ)
        → IsRanked rank
        → (fuel : ℕ) (refid : Bytes) → rank refid < fuel
        → Resolves (resolve_reference resolve resolve_fileset D path_dict fuel refid)
    unfolding resolve_reference
    reference-Resolves rank ranked zero refid h = absurd (omega arith)
    reference-Resolves rank ranked (suc fuel) refid h =
        elim (Option-cases (Dict.lookup D path_dict refid)) [
          | inl e ↦ ([], rw (e, resolve_reference) refl)
          | inr (path_list, e) ↦
              rw (e, resolve_reference)
                (list-Resolves (resolve_reference resolve resolve_fileset D path_dict fuel) rank
                  (rank refid) (λ other l. reference-Resolves rank ranked fuel other (omega arith))
                  path_list (ranked refid path_list e))
        ]

    -- Where the references between the paths of the project go down a rank, and the texts can be
    -- resolved, a path is resolved: a recursion as deep as the ranks of its references is enough.
    pub resolve_path-total :
        (rank : Bytes → ℕ)
        → IsRanked rank
        → (n : ℕ) (path_list : PathList Fileset) → AllRankBelow rank n path_list
        → (entries : List Bytes) × (resolve_path resolve resolve_fileset D path_dict n path_list
            ≡ some entries)
    unfolding resolve_path
    resolve_path-total rank ranked n path_list r =
        list-Resolves (resolve_reference resolve resolve_fileset D path_dict n) rank n
          (λ refid h. reference-Resolves rank ranked n refid h) path_list r
