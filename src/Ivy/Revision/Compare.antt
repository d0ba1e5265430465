-- ===== src/Ivy/Revision/Compare.antt =====
-- `ivy_compare_revisions` (src/ivy_parse.c) as an order.
use gantt.Prelude.{
  ◌≡◌, refl, Option, List, [], ◌∷◌, ◌++◌, arith, Ordering, Bool-cases, inl, inr, sym,
}
use gantt.Text.{Bytes, lexicographic, streq, streq_iff}
use gantt.Text.Order.{swap, IsOrder, compare-IsOrder, strcmp-IsOrder, lexicographic-IsOrder}
use gantt.Ivy.Revision.{RevToken, compare_token, tokenize_revision, compare_revisions, or_empty}

compare_token-IsOrder : IsOrder compare_token
unfolding compare_token swap
compare_token-IsOrder = record {
  swapped = λ a b.
      ground (arith, compare-IsOrder.swapped a.num b.num, strcmp-IsOrder.swapped a.str b.str);
  same = λ a b c h.
      ground (arith, compare-IsOrder.same a.num b.num c.num, strcmp-IsOrder.same a.str b.str c.str);
  lt_trans = λ a b c h k. ground (
    arith,
    compare-IsOrder.lt_trans a.num b.num c.num,
    strcmp-IsOrder.lt_trans a.str b.str c.str,
  );
}

tokens-IsOrder : IsOrder (lexicographic compare_token)
tokens-IsOrder = lexicographic-IsOrder compare_token compare_token-IsOrder

-- In an order everything equals itself.
IsOrder-refl : {A : Type 0} (cmp : A → A → Ordering) → IsOrder cmp → (a : A) → cmp a a ≡ Ordering.eq
unfolding swap
IsOrder-refl cmp order a = ground (arith, order.swapped a a)

-- The short cut for equal texts gives what the tokens would.
compare_revisions-tokens :
    (a b : Option Bytes)
    → compare_revisions a b
      ≡ lexicographic compare_token
          (tokenize_revision (or_empty a))
          (tokenize_revision (or_empty b))
unfolding compare_revisions
compare_revisions-tokens a b = elim (Bool-cases (streq (or_empty a) (or_empty b))) [
  | inl e ↦
      rw (e, ← (streq_iff (or_empty a) (or_empty b)).0 e)
        (sym (IsOrder-refl _ tokens-IsOrder (tokenize_revision (or_empty a))))
  | inr e ↦ rw e
]

-- Comparing revisions is a total preorder: exchanging the two exchanges the sign, revisions that
-- compare equal compare alike with every third, and "less" is transitive.
pub compare_revisions-IsOrder : IsOrder compare_revisions
compare_revisions-IsOrder = record {
  swapped = λ a b. simp compare_revisions-tokens (tokens-IsOrder.swapped _ _);
  same = λ a b c h.
      simp compare_revisions-tokens
        (tokens-IsOrder.same _ _ _ (simp compare_revisions-tokens at h));
  lt_trans = λ a b c h k. simp compare_revisions-tokens (
      tokens-IsOrder.lt_trans _ _ _ (simp compare_revisions-tokens at h)
        (simp compare_revisions-tokens at k));
}

lexicographic-append :
    {A : Type 0} (cmp : A → A → Ordering)
    → IsOrder cmp
    → (s : List A) (b : A) (t : List A) → lexicographic cmp s (s ++ b ∷ t) ≡ Ordering.lt
unfolding lexicographic
lexicographic-append cmp order [] b t = refl
lexicographic-append cmp order (a ∷ s) b t =
    ground (arith, IsOrder-refl cmp order a, lexicographic-append cmp order s b t)

-- A revision that goes on with any more tokens, a word such as "beta" too, is the greater one.
pub compare_revisions-longer :
    (a b : Option Bytes) (token : RevToken) (rest : List RevToken)
    → tokenize_revision (or_empty b) ≡ tokenize_revision (or_empty a) ++ token ∷ rest
    → compare_revisions a b ≡ Ordering.lt
compare_revisions-longer a b token rest h =
    rw (compare_revisions-tokens a b, h)
      (lexicographic-append compare_token compare_token-IsOrder (tokenize_revision (or_empty a))
        token rest)
