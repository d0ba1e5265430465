-- ===== src/Ivy/Walk/Later.antt =====
-- The choice of the latest revision in `walk_module` (src/ivy_resolve.c).
use gantt.Prelude.{
  ◌≡◌, ◌≢◌, refl, Option, none, some, arith, if◌then◌else◌, inl, inr, Bool-cases, Ordering,
}
use gantt.Text.{Bytes}
use gantt.Text.Order.{swap}
use gantt.Ivy.Revision.{or_empty, compare_revisions}
use gantt.Ivy.Revision.Compare.{compare_revisions-IsOrder}
use gantt.Ivy.Walk.{is_later}

-- The revision that a module has after one more was found.
unfoldable pub latest : Option Bytes → Option Bytes → Option Bytes
latest revision best = if is_later revision best then some (or_empty revision) else best

-- `NULL` and "" are the same revision.
compare_revisions-or_empty :
    (a r : Option Bytes) → compare_revisions a (some (or_empty r)) ≡ compare_revisions a r
unfolding compare_revisions or_empty
compare_revisions-or_empty a none = refl
compare_revisions-or_empty a (some r) = refl

compare_revisions_refl : (r : Option Bytes) → compare_revisions r r ≡ Ordering.eq
unfolding swap
compare_revisions_refl r = ground (arith, compare_revisions-IsOrder.swapped r r)

-- Less than or equal, and less.
not-gt_trans :
    (a b c : Option Bytes)
    → compare_revisions a b ≢ Ordering.gt
    → compare_revisions c b ≡ Ordering.gt
    → compare_revisions a c ≢ Ordering.gt
unfolding swap
not-gt_trans a b c h k = ground (
  arith,
  compare_revisions-IsOrder.swapped c b,
  compare_revisions-IsOrder.lt_trans a b c,
  compare_revisions-IsOrder.same a b c,
)

-- The latest of two is not before either.
pub latest-ge :
    (revision best : Option Bytes)
    → (rev : Bytes) × (latest revision best ≡ some rev)
      × (compare_revisions revision (some rev) ≢ Ordering.gt)
unfolding latest is_later
latest-ge revision none = (
  or_empty revision,
  refl,
  λ h.
      ground (arith, compare_revisions-or_empty revision revision, compare_revisions_refl revision),
)
latest-ge revision (some best) = elim (Bool-cases (is_later revision (some best))) [
  | inl e ↦ (
    or_empty revision,
    ground arith,
    λ h.
        ground
          (arith, compare_revisions-or_empty revision revision, compare_revisions_refl revision),
  )
  | inr e ↦ (best, ground arith, λ h. ground arith)
]

pub latest-ge_best :
    (revision a : Option Bytes) (best rev : Bytes)
    → compare_revisions a (some best) ≢ Ordering.gt
    → latest revision (some best) ≡ some rev
    → compare_revisions a (some rev) ≢ Ordering.gt
unfolding latest is_later
latest-ge_best revision a best rev h e = elim (Bool-cases (is_later revision (some best))) [
  | inl l ↦ λ g.
      ground (arith, not-gt_trans a (some best) revision h, compare_revisions-or_empty a revision)
  | inr l ↦ λ g. ground arith
]
