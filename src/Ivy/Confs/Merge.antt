-- ===== src/Ivy/Confs/Merge.antt =====
-- Merged configurations and merged excludes (src/ivy_resolve.c).
use gantt.Prelude.{
  ◌≡◌, refl, ◌⊎◌, true, ◌||◌, some, List, [], ◌∷◌, ◌++◌, arith, Bool-cases, inl, inr, map,
}
use mathlib.Core.Path.{subst}
use gantt.Text.{Bytes, streq, streq_iff, str_strip}
use gantt.Target.Order.{In, Once, Once-append, In-append_left, In-append_last, In-append_inv}
use gantt.Ivy.Confs.{
  IvyExclude, IvyModuleId, exclude_matches, is_excluded, append_excludes, merge_excludes, has_conf,
  tokens_of, merge_tokens, merge_conf_string_into_list,
}

is_excluded-last :
    (a : List IvyExclude) (ex : IvyExclude) (id : IvyModuleId)
    → is_excluded (a ++ ex ∷ []) id ≡ (is_excluded a id || exclude_matches ex id)
unfolding is_excluded
is_excluded-last [] ex id = ground arith
is_excluded-last (x ∷ a) ex id = ground (arith, is_excluded-last a ex id)

is_excluded-append :
    (a b : List IvyExclude) (id : IvyModuleId)
    → is_excluded (append_excludes a b) id ≡ (is_excluded a id || is_excluded b id)
unfolding is_excluded append_excludes
is_excluded-append a [] id = ground arith
is_excluded-append a (ex ∷ b) id =
    ground (arith, is_excluded-last a ex id, is_excluded-append (a ++ ex ∷ []) b id)

-- Merged lists of excludes exclude a module exactly where one of the two lists does.
pub is_excluded-merge_excludes :
    (a b : List IvyExclude) (id : IvyModuleId)
    → is_excluded (merge_excludes a b) id ≡ (is_excluded a id || is_excluded b id)
unfolding merge_excludes is_excluded
is_excluded-merge_excludes a b id =
    ground (arith, is_excluded-append (append_excludes [] a) b id, is_excluded-append [] a id)

has_conf_sound : (tok : Bytes) (list : List Bytes) → has_conf tok list ≡ true → In tok list
unfolding has_conf
has_conf_sound tok [] h = cc
has_conf_sound tok (conf ∷ list) h = elim (Bool-cases (streq conf tok)) [
  | inl e ↦ inl ((streq_iff conf tok).0 e)
  | inr e ↦ inr (has_conf_sound tok list (ground arith))
]

has_conf_complete : (tok : Bytes) (list : List Bytes) → In tok list → has_conf tok list ≡ true
unfolding has_conf
has_conf_complete tok [] i = absurd i
has_conf_complete tok (conf ∷ list) (inl e) = rw ((streq_iff conf tok).1 e) refl
has_conf_complete tok (conf ∷ list) (inr i) = ground (arith, has_conf_complete tok list i)

-- What the list holds after the tokens were merged.
pub record Merged (list tokens result : List Bytes) : Type 0 where
  pub once : Once result
  pub keeps : (x : Bytes) → In x list → In x result
  pub takes : (x : Bytes) → In x (map str_strip tokens) → In x result
  pub nothing_else : (x : Bytes) → In x result → In x list ⊎ In x (map str_strip tokens)

merge_tokens-Merged :
    (list tokens : List Bytes) → Once list → Merged list tokens (merge_tokens list tokens)
unfolding merge_tokens
merge_tokens-Merged list [] o = record {
  once = o;
  keeps = λ x i. i;
  takes = λ x i. absurd i;
  nothing_else = λ x i. inl i;
}
merge_tokens-Merged list (raw ∷ tokens) o = elim (Bool-cases (has_conf (str_strip raw) list)) [
  | inl e ↦
      let there = has_conf_sound (str_strip raw) list e in
      let m = merge_tokens-Merged list tokens o in
      rw e (record {
        once = m.once;
        keeps = m.keeps;
        takes = λ x i. elim i [
          | inl same ↦ m.keeps x (subst (λ y. In y list) same there)
          | inr later ↦ m.takes x later
        ];
        nothing_else =
            λ x i. elim (m.nothing_else x i) [ inl old ↦ inl old | inr later ↦ inr (inr later) ];
      })
  | inr e ↦
      let m = merge_tokens-Merged (list ++ str_strip raw ∷ []) tokens (
        Once-append (str_strip raw) list o
          (λ i. absurd (ground (arith, has_conf_complete (str_strip raw) list i)))) in
      rw e (record {
        once = m.once;
        keeps = λ x i. m.keeps x (In-append_left x list _ i);
        takes = λ x i. elim i [
          | inl same ↦
              subst (λ y. In y (merge_tokens (list ++ str_strip raw ∷ []) tokens)) same
                (m.keeps (str_strip raw) (In-append_last (str_strip raw) list))
          | inr later ↦ m.takes x later
        ];
        nothing_else = λ x i. elim (m.nothing_else x i) [
          | inl old ↦ elim (In-append_inv x (str_strip raw) list old) [
            | inl j ↦ inl j
            | inr same ↦ inr (inl same)
          ]
          | inr later ↦ inr (inr later)
        ];
      })
]

-- Merging a comma-joined list into a list without repetitions gives one without repetitions,
-- which holds what was there and the stripped tokens, and nothing else.
pub merge_conf_string_into_list-Merged :
    (list : List Bytes) (comma_joined : Bytes)
    → Once list
    → Merged list (tokens_of comma_joined) (merge_conf_string_into_list list (some comma_joined))
unfolding merge_conf_string_into_list
merge_conf_string_into_list-Merged list comma_joined o =
    merge_tokens-Merged list (tokens_of comma_joined) o
