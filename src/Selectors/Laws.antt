-- ===== src/Selectors/Laws.antt =====
-- Named selectors (src/selector.c): the hops that a match takes, and circular names.
use gantt.Prelude.{
  ℕ, zero, suc, ◌≡◌, refl, Bool, true, false, not, Option, none, some, arith, ◌<◌, Bool-cases,
  Option-cases, inl, inr,
}
use gantt.Text.{Bytes}
use gantt.Conditions.{test_value, unless_stopped}
use gantt.Selectors.{
  Selector, Selectors, SelectorFields, SelectorType, selector, selector_refid, selector_or,
  selector_and, selector_not, selector_filename, selector_include, selector_exclude, selector_other,
  no_selector, selector_then, names_set, match_name, matches_any, matches_all, matches_none,
  names_unset, guarded, select_result, matches_selector, hop, matches_hops, selector_matches,
}

module _ (fnmatch : Bytes → Bytes → Bool) (resolve : Bytes → Option Bytes)
    (property : Bytes → Option Bytes) (selectors : Bytes → Option Selector) (filepath : Bytes) where
  -- A selector without conditions that refers to a name.
  abbrev pub reference_to : Bytes → Selector
  reference_to id =
      selector
        (record {
          selector_type = selector_refid;
          name = none;
          refid = some id;
          unless_prop = none;
          if_prop = none;
        })
        no_selector

  hop-circular :
      (hops : ℕ) (id : Bytes)
      → selectors id ≡ some (reference_to id)
      → matches_hops fnmatch resolve property selectors filepath hops (reference_to id) ≡ none
      → hop fnmatch resolve property selectors filepath
          (matches_hops fnmatch resolve property selectors filepath hops)
          (some id)
        ≡ none
  unfolding hop
  hop-circular hops id e h = rw (e, hop) h

  -- A reference that is named with its own name is evaluated for ever: no number of hops is enough.
  pub selector_matches_circular :
      (hops : ℕ) (id : Bytes)
      → selectors id ≡ some (reference_to id)
      → selector_matches fnmatch resolve property selectors filepath hops (some (reference_to id))
        ≡ none
  unfolding selector_matches matches_hops matches_selector guarded select_result hop names_set
      names_unset
  selector_matches_circular zero id e = refl
  selector_matches_circular (suc hops) id e =
      hop-circular hops id e (selector_matches_circular hops id e)

  abbrev pub Returns : Option Bool → Type 0
  Returns o = (b : Bool) × (o ≡ some b)

  -- Every pattern is resolved in the end.
  abbrev pub IsResolving : Type 0
  IsResolving = (text : Bytes) → (result : Bytes) × (resolve text ≡ some result)

  stopped-Returns :
      (stop : Bool) (o rest : Option Bool)
      → Returns o
      → Returns rest
      → Returns (unless_stopped stop o rest)
  unfolding unless_stopped
  stopped-Returns stop none rest r s = cc
  stopped-Returns true (some true) rest r s = (true, refl)
  stopped-Returns true (some false) rest r s = s
  stopped-Returns false (some true) rest r s = s
  stopped-Returns false (some false) rest r s = (false, refl)

  test_value-Returns :
      {A : Type 0} (test : A → Bool) (o : Option A)
      → ((a : A) × (o ≡ some a))
      → Returns (test_value test o)
  unfolding test_value
  test_value-Returns test none r = cc
  test_value-Returns test (some a) r = (test a, refl)

  match_name-Returns :
      IsResolving
      → (name : Option Bytes) → Returns (match_name fnmatch resolve property name filepath)
  unfolding match_name
  match_name-Returns r none = (false, refl)
  match_name-Returns r (some pattern) = test_value-Returns _ (resolve pattern) (r pattern)

  guarded-Returns :
      (fields : SelectorFields) (o : Option Bool)
      → Returns o
      → Returns (guarded fnmatch resolve property fields o)
  unfolding guarded
  guarded-Returns fields o r = elim (Bool-cases (names_set property fields.unless_prop)) [
    | inl e ↦ rw e (false, refl)
    | inr e ↦ elim (Bool-cases (names_unset property fields.if_prop)) [
      | inl f ↦ rw (e, f) (false, refl)
      | inr f ↦ rw (e, f) r
    ]
  ]

  select-Returns :
      (kind : SelectorType) (a b c d e : Option Bool)
      → Returns a
      → Returns b
      → Returns c
      → Returns d
      → Returns e
      → Returns (select_result fnmatch resolve property kind a b c d e)
  unfolding select_result
  select-Returns selector_or a b c d e p q r s t = p
  select-Returns selector_and a b c d e p q r s t = q
  select-Returns selector_not a b c d e p q r s t = r
  select-Returns selector_refid a b c d e p q r s t = s
  select-Returns selector_filename a b c d e p q r s t = t
  select-Returns selector_include a b c d e p q r s t = t
  select-Returns selector_exclude a b c d e p q r s t = t
  select-Returns selector_other a b c d e p q r s t = (false, refl)

  module _ (rank : Bytes → ℕ) where
    -- The name has a selector only if it ranks below `r`.
    abbrev pub NameBelow : ℕ → Option Bytes → Type 0
    NameBelow r none = Unit
    NameBelow r (some id) = (s : Selector) → selectors id ≡ some s → rank id < r

    -- So do all names in a selector.
    unfoldable mutual
      pub RefsBelow : ℕ → Selector → Type 0
      RefsBelow r (selector fields children) = NameBelow r fields.refid × AllBelow r children

      pub AllBelow : ℕ → Selectors → Type 0
      AllBelow r no_selector = Unit
      AllBelow r (selector_then child rest) = RefsBelow r child × AllBelow r rest

    -- Every named selector refers to names of lower rank.
    abbrev pub IsRanked : Type 0
    IsRanked = (id : Bytes) (s : Selector) → selectors id ≡ some s → RefsBelow (rank id) s

    module _ (resolving : IsResolving) (r : ℕ) (ref : Option Bytes → Option Bool)
        (refs : (refid : Option Bytes) → NameBelow r refid → Returns (ref refid)) where
      mutual
        unfolding RefsBelow matches_selector

        selector-Returns :
            (s : Selector)
            → RefsBelow r s
            → Returns (matches_selector fnmatch resolve property filepath ref s)
        selector-Returns (selector fields children) h = guarded-Returns fields _ (
            select-Returns fields.selector_type _ _ _ _ _ (any-Returns children h.1)
              (all-Returns children h.1) (none-Returns children h.1) (refs fields.refid h.0)
              (match_name-Returns resolving fields.name))

        any-Returns :
            (s : Selectors)
            → AllBelow r s
            → Returns (matches_any fnmatch resolve property filepath ref s)
        any-Returns no_selector h = (false, refl)
        any-Returns (selector_then child rest) h =
            stopped-Returns true _ _ (selector-Returns child h.0) (any-Returns rest h.1)

        all-Returns :
            (s : Selectors)
            → AllBelow r s
            → Returns (matches_all fnmatch resolve property filepath ref s)
        all-Returns no_selector h = (true, refl)
        all-Returns (selector_then child rest) h =
            stopped-Returns false _ _ (selector-Returns child h.0) (all-Returns rest h.1)

        none-Returns :
            (s : Selectors)
            → AllBelow r s
            → Returns (matches_none fnmatch resolve property filepath ref s)
        none-Returns no_selector h = (true, refl)
        none-Returns (selector_then child rest) h =
            test_value-Returns not _ (selector-Returns child h.0)

    hop-Returns :
        (next : Selector → Option Bool) (r : ℕ) (refid : Option Bytes)
        → NameBelow r refid
        → ((id : Bytes) (s : Selector) → selectors id ≡ some s → rank id < r → Returns (next s))
        → Returns (hop fnmatch resolve property selectors filepath next refid)
    unfolding hop
    hop-Returns next r none b h = (false, refl)
    hop-Returns next r (some id) b h = elim (Option-cases (selectors id)) [
      | inl e ↦ rw (e, hop) (false, refl)
      | inr (s, e) ↦ rw (e, hop) (h id s e (b s e))
    ]

    -- Where the names refer to names of lower rank only and every pattern is resolved, the match
    -- comes back, with one hop more than the rank that the names of the selector stay below.
    pub selector_matches-Returns :
        (hops r : ℕ) (s : Selector)
        → IsResolving
        → IsRanked
        → RefsBelow r s
        → r < hops
        → Returns (selector_matches fnmatch resolve property selectors filepath hops (some s))
    unfolding selector_matches matches_hops
    selector_matches-Returns zero r s resolving ranked b h = absurd (omega arith)
    selector_matches-Returns (suc hops) r s resolving ranked b h =
        selector-Returns resolving r _
          (λ refid below. hop-Returns _ r refid below (λ id t e low.
            selector_matches-Returns hops (rank id) t resolving ranked (ranked id t e)
              (omega arith)))
          s b
