-- ===== src/Match/Wildcard.antt =====
-- Patterns with one "**" (src/match.c).
use mathlib.Core.List.{reverse, reverse-cons, reverse-append, reverse-reverse}
use gantt.Prelude.{
  ◌≡◌, refl, ◌≢◌, ◌↔◌, Bool, true, false, List, [], ◌∷◌, ◌++◌, arith, if◌then◌else◌, Bool-cases,
  inl, inr, ap, sym, ◌∙◌,
}
use gantt.Text.{Bytes, streq}
use gantt.Match.{
  stars, is_stars, match_forward, match_rest, match_components, all_stars, match_ends,
  match_backward, match_middle,
}
use gantt.Match.Agree.{
  IsPlain, Agree, match_components-cons, match_components-nil, Agree-reverse, IsPlain-reverse,
}

append-nonempty : (xs ys : List Bytes) → ys ≢ [] → xs ++ ys ≢ []
append-nonempty [] ys h = h
append-nonempty (x ∷ xs) ys h = λ e. cc

reverse-nonempty : (xs : List Bytes) → xs ≢ [] → reverse xs ≢ []
reverse-nonempty xs h = λ e. h (sym (reverse-reverse xs) ∙ ap reverse e)

module _ (m : Bytes → Bytes → Bool) where
  back : List Bytes → List Bytes → Bool
  back pattern string = match_ends m (match_backward m pattern string)

  back-stars : (string : List Bytes) → string ≢ [] → back (stars ∷ []) string ≡ true
  unfolding back match_ends match_backward match_middle
  back-stars [] h = absurd (h refl)
  back-stars (s ∷ string) h = refl

  back-cons :
      (q s : Bytes) (pattern string : List Bytes)
      → is_stars q ≡ false
      → string ≢ []
      → back (q ∷ (pattern ++ stars ∷ [])) (s ∷ string)
        ≡ (if m q s then back (pattern ++ stars ∷ []) string else false)
  unfolding back match_ends match_backward
  back-cons q s pattern [] h n = absurd (n refl)
  back-cons q s [] (t ∷ string) h n = ground arith
  back-cons q s (p ∷ pattern) (t ∷ string) h n = ground arith

  back-short :
      (q s : Bytes) (pattern : List Bytes)
      → is_stars q ≡ false
      → back (q ∷ (pattern ++ stars ∷ [])) (s ∷ []) ≡ false
  unfolding back match_ends match_backward match_middle all_stars
  back-short q s [] h = ground arith
  back-short q s (p ∷ pattern) h = ground arith

  -- A back of the path matches, and something is left before it. The lists are backwards.
  BackFits : List Bytes → List Bytes → Type 0
  BackFits pattern string =
      (last mid : List Bytes) × (string ≡ last ++ mid) × Agree m pattern last × (mid ≢ [])

  back_sound :
      (pattern string : List Bytes)
      → IsPlain pattern
      → string ≢ []
      → back (pattern ++ stars ∷ []) string ≡ true
      → BackFits pattern string
  unfolding BackFits
  back_sound [] string h n e = ([], string, refl, tt, n)
  back_sound (q ∷ pattern) [] h n e = absurd (n refl)
  back_sound (q ∷ pattern) (s ∷ []) h n e = ground (arith, back-short q s pattern h.0)
  back_sound (q ∷ pattern) (s ∷ t ∷ string) h n e = elim (Bool-cases (m q s)) [
    | inl y ↦
        let step = back-cons q s pattern (t ∷ string) h.0 (λ x. cc) in
        let (last, mid, split, agree, left) =
          back_sound pattern (t ∷ string) h.1 (λ x. cc) (ground (arith, step)) in
        (s ∷ last, mid, ap (λ (r : List Bytes). s ∷ r) split, (y, agree), left)
    | inr x ↦ ground (arith, back-cons q s pattern (t ∷ string) h.0 (λ x. cc))
  ]

  back_complete :
      (pattern last mid : List Bytes)
      → IsPlain pattern
      → Agree m pattern last
      → mid ≢ []
      → back (pattern ++ stars ∷ []) (last ++ mid) ≡ true
  back_complete [] [] mid h a n = back-stars mid n
  back_complete [] (s ∷ last) mid h a n = absurd a
  back_complete (q ∷ pattern) [] mid h a n = absurd a
  back_complete (q ∷ pattern) (s ∷ last) mid h a n =
      rw (back-cons q s pattern (last ++ mid) h.0 (append-nonempty last mid n), a.0)
        (back_complete pattern last mid h.1 a.1 n)

  -- The path is a front, a middle and a back; the front matches what stands before "**", the back
  -- what stands behind it, and the middle is not empty unless "**" ends the pattern.
  pub record Fits (before behind string : List Bytes) : Type 0 where
    pub front : List Bytes
    pub mid : List Bytes
    pub end : List Bytes
    pub split : string ≡ front ++ (mid ++ end)
    pub front_agrees : Agree m before front
    pub end_agrees : Agree m behind end
    pub some_between : behind ≢ [] → mid ≢ []

  match_stars :
      (behind : List Bytes) (s : Bytes) (string : List Bytes)
      → match_components m (stars ∷ behind) (s ∷ string)
        ≡ back (reverse behind ++ stars ∷ []) (reverse (s ∷ string))
  unfolding match_components match_forward match_rest back streq
  match_stars behind s string = rw (← reverse-cons stars behind)

  -- The case where the pattern begins with "**".
  stars_sound :
      (behind string : List Bytes)
      → IsPlain behind
      → match_components m (stars ∷ behind) string ≡ true
      → Fits [] behind string
  unfolding all_stars BackFits
  stars_sound [] [] h e = record {
    front = [];
    mid = [];
    end = [];
    split = refl;
    front_agrees = tt;
    end_agrees = tt;
    some_between = λ n. n;
  }
  stars_sound (q ∷ behind) [] h e = ground (arith, match_components-nil m (stars ∷ q ∷ behind))
  stars_sound behind (s ∷ string) h e =
      let (last, mid, split, agree, left) =
        back_sound (reverse behind) (reverse (s ∷ string)) (IsPlain-reverse behind h)
          (reverse-nonempty (s ∷ string) (λ x. cc)) (sym (match_stars behind s string) ∙ e) in
      record {
        front = [];
        mid = reverse mid;
        end = reverse last;
        split = sym (reverse-reverse (s ∷ string)) ∙ ap reverse split ∙ reverse-append last mid;
        front_agrees = tt;
        end_agrees = rw reverse-reverse at (Agree-reverse m (reverse behind) last agree);
        some_between = λ _. reverse-nonempty mid left;
      }

  stars_complete :
      (behind mid end : List Bytes)
      → IsPlain behind
      → Agree m behind end
      → (behind ≢ [] → mid ≢ [])
      → match_components m (stars ∷ behind) (mid ++ end) ≡ true
  unfolding all_stars
  stars_complete [] [] [] h a n = unfold streq in match_components-nil m (stars ∷ [])
  stars_complete [] [] (x ∷ end) h a n = absurd a
  stars_complete (q ∷ behind) [] end h a n = absurd (n (λ e. cc) refl)
  stars_complete behind (s ∷ mid) end h a n =
      rw (match_stars behind s (mid ++ end), reverse-append (s ∷ mid) end)
        (back_complete (reverse behind) (reverse end) (reverse (s ∷ mid)) (IsPlain-reverse behind h)
          (Agree-reverse m behind end a) (reverse-nonempty (s ∷ mid) (λ e. cc)))

  Fits-cons :
      (p s : Bytes) (before behind string : List Bytes)
      → m p s ≡ true
      → Fits before behind string
      → Fits (p ∷ before) behind (s ∷ string)
  Fits-cons p s before behind string e f = record {
    front = s ∷ f.front;
    mid = f.mid;
    end = f.end;
    split = ap (λ (r : List Bytes). s ∷ r) f.split;
    front_agrees = (e, f.front_agrees);
    end_agrees = f.end_agrees;
    some_between = f.some_between;
  }

  wildcard_sound :
      (before behind string : List Bytes)
      → IsPlain before
      → IsPlain behind
      → match_components m (before ++ stars ∷ behind) string ≡ true
      → Fits before behind string
  unfolding all_stars
  wildcard_sound [] behind string b h e = stars_sound behind string h e
  wildcard_sound (p ∷ before) behind [] b h e =
      ground (arith, match_components-nil m (p ∷ (before ++ stars ∷ behind)))
  wildcard_sound (p ∷ before) behind (s ∷ string) b h e =
      let step = match_components-cons m p s (before ++ stars ∷ behind) string b.0 in
      Fits-cons p s before behind string (ground (arith, step))
        (wildcard_sound before behind string b.1 h (ground (arith, step)))

  wildcard_complete :
      (before behind front mid end : List Bytes)
      → IsPlain before
      → IsPlain behind
      → Agree m before front
      → Agree m behind end
      → (behind ≢ [] → mid ≢ [])
      → match_components m (before ++ stars ∷ behind) (front ++ (mid ++ end)) ≡ true
  wildcard_complete [] behind [] mid end b h a c n = stars_complete behind mid end h c n
  wildcard_complete [] behind (s ∷ front) mid end b h a c n = absurd a
  wildcard_complete (p ∷ before) behind [] mid end b h a c n = absurd a
  wildcard_complete (p ∷ before) behind (s ∷ front) mid end b h a c n =
      rw (match_components-cons m p s (before ++ stars ∷ behind) (front ++ (mid ++ end)) b.0, a.0)
        (wildcard_complete before behind front mid end b.1 h a.1 c n)

  -- A pattern with one "**" matches exactly the paths that fit it. So "**" stands for no component
  -- at all at the end of a pattern, but for one or more where something follows it.
  pub match_wildcard :
      (before behind string : List Bytes)
      → IsPlain before
      → IsPlain behind
      → (match_components m (before ++ stars ∷ behind) string ≡ true) ↔ Fits before behind string
  match_wildcard before behind string b h = (
    wildcard_sound before behind string b h,
    λ f. rw f.split (
        wildcard_complete before behind f.front f.mid f.end b h f.front_agrees f.end_agrees
          f.some_between),
  )
