-- ===== src/Text/Order.antt =====
-- Comparisons that return an `Ordering`, and what makes one a total preorder.
use gantt.Prelude.{◌≡◌, refl, List, [], ◌∷◌, arith, compare, Ordering}
use gantt.Text.{lexicographic, strcmp}

unfoldable pub swap : Ordering → Ordering
swap Ordering.lt = Ordering.gt
swap Ordering.eq = Ordering.eq
swap Ordering.gt = Ordering.lt

-- The other way round the sign changes, equals compare alike with all, and "less" is transitive.
pub record IsOrder {A : Type 0} (cmp : A → A → Ordering) : Type 0 where
  pub swapped : (a b : A) → cmp b a ≡ swap (cmp a b)
  pub same : (a b c : A) → cmp a b ≡ Ordering.eq → cmp a c ≡ cmp b c
  pub lt_trans : (a b c : A) → cmp a b ≡ Ordering.lt → cmp b c ≡ Ordering.lt → cmp a c ≡ Ordering.lt

pub compare-IsOrder : IsOrder compare
unfolding swap
compare-IsOrder = record {
  swapped = λ a b. ground arith;
  same = λ a b c h. ground arith;
  lt_trans = λ a b c h k. ground arith;
}

module _ {A : Type 0} (cmp : A → A → Ordering) (order : IsOrder cmp) where
  lexicographic-swapped : (s t : List A) → lexicographic cmp t s ≡ swap (lexicographic cmp s t)
  unfolding lexicographic swap
  lexicographic-swapped [] [] = refl
  lexicographic-swapped [] (b ∷ t) = refl
  lexicographic-swapped (a ∷ s) [] = refl
  lexicographic-swapped (a ∷ s) (b ∷ t) =
      ground (arith, order.swapped a b, lexicographic-swapped s t)

  lexicographic-same :
      (s t u : List A)
      → lexicographic cmp s t ≡ Ordering.eq
      → lexicographic cmp s u ≡ lexicographic cmp t u
  unfolding lexicographic
  lexicographic-same [] [] u h = refl
  lexicographic-same [] (b ∷ t) u h = cc
  lexicographic-same (a ∷ s) [] u h = cc
  lexicographic-same (a ∷ s) (b ∷ t) [] h = refl
  lexicographic-same (a ∷ s) (b ∷ t) (c ∷ u) h =
      ground (arith, order.same a b c, lexicographic-same s t u)

  lexicographic-lt_trans :
      (s t u : List A)
      → lexicographic cmp s t ≡ Ordering.lt
      → lexicographic cmp t u ≡ Ordering.lt
      → lexicographic cmp s u ≡ Ordering.lt
  unfolding lexicographic swap
  lexicographic-lt_trans s [] [] h k = cc
  lexicographic-lt_trans [] [] (c ∷ u) h k = cc
  lexicographic-lt_trans (a ∷ s) [] (c ∷ u) h k = cc
  lexicographic-lt_trans s (b ∷ t) [] h k = cc
  lexicographic-lt_trans [] (b ∷ t) (c ∷ u) h k = refl
  lexicographic-lt_trans (a ∷ s) (b ∷ t) (c ∷ u) h k = ground (
    arith,
    order.same a b c,
    order.same c b a,
    order.swapped b c,
    order.swapped a c,
    order.swapped a b,
    order.lt_trans a b c,
    lexicographic-lt_trans s t u,
  )

  pub lexicographic-IsOrder : IsOrder (lexicographic cmp)
  lexicographic-IsOrder = record {
    swapped = lexicographic-swapped;
    same = lexicographic-same;
    lt_trans = lexicographic-lt_trans;
  }

pub strcmp-IsOrder : IsOrder strcmp
unfolding strcmp
strcmp-IsOrder = lexicographic-IsOrder compare compare-IsOrder
