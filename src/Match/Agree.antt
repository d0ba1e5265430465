-- ===== src/Match/Agree.antt =====
-- Patterns without "**" (src/match.c).
use mathlib.Core.List.{reverse, reverse-cons}
use gantt.Prelude.{◌≡◌, refl, ◌↔◌, Bool, true, false, List, [], ◌∷◌, ◌++◌, arith, if◌then◌else◌}
use gantt.Text.{Bytes}
use gantt.Match.{is_stars, match_forward, match_rest, match_components, all_stars}

-- No component is "**".
abbrev pub IsPlain : List Bytes → Type 0
IsPlain [] = Unit
IsPlain (p ∷ pattern) = (is_stars p ≡ false) × IsPlain pattern

module _ (m : Bytes → Bytes → Bool) where
  -- As many components, and each matches.
  abbrev pub Agree : List Bytes → List Bytes → Type 0
  Agree [] [] = Unit
  Agree (p ∷ pattern) (s ∷ string) = (m p s ≡ true) × Agree pattern string
  Agree _ _ = ⊥

  -- A component before the first "**" is compared, and the rest is matched as if alone.
  pub match_components-cons :
      (p s : Bytes) (pattern string : List Bytes)
      → is_stars p ≡ false
      → match_components m (p ∷ pattern) (s ∷ string)
        ≡ (if m p s then match_components m pattern string else false)
  unfolding match_components match_forward match_rest
  match_components-cons p s pattern string h = ground arith

  pub match_components-nil :
      (pattern : List Bytes) → match_components m pattern [] ≡ all_stars pattern
  unfolding match_components match_forward match_rest all_stars
  match_components-nil [] = refl
  match_components-nil (p ∷ pattern) = refl

  match_plain_sound :
      (pattern string : List Bytes)
      → IsPlain pattern
      → match_components m pattern string ≡ true
      → Agree pattern string
  unfolding all_stars
  match_plain_sound [] [] h e = tt
  match_plain_sound [] (s ∷ string) h e = unfold match_components match_forward match_rest in cc
  match_plain_sound (p ∷ pattern) [] h e = ground (arith, match_components-nil (p ∷ pattern))
  match_plain_sound (p ∷ pattern) (s ∷ string) h e =
      ground
        (arith, match_components-cons p s pattern string h.0, match_plain_sound pattern string h.1)

  match_plain_complete :
      (pattern string : List Bytes)
      → IsPlain pattern
      → Agree pattern string
      → match_components m pattern string ≡ true
  unfolding all_stars
  match_plain_complete [] [] h a = match_components-nil []
  match_plain_complete [] (s ∷ string) h a = absurd a
  match_plain_complete (p ∷ pattern) [] h a = absurd a
  match_plain_complete (p ∷ pattern) (s ∷ string) h a =
      rw (match_components-cons p s pattern string h.0, a.0)
        (match_plain_complete pattern string h.1 a.1)

  -- A pattern without "**" matches exactly the paths with as many components, each of which
  -- matches the pattern's component in its place.
  pub match_plain :
      (pattern string : List Bytes)
      → IsPlain pattern
      → (match_components m pattern string ≡ true) ↔ Agree pattern string
  match_plain pattern string h =
      (match_plain_sound pattern string h, match_plain_complete pattern string h)

  Agree-append : (p q s t : List Bytes) → Agree p s → Agree q t → Agree (p ++ q) (s ++ t)
  Agree-append [] q [] t a b = b
  Agree-append [] q (x ∷ s) t a b = absurd a
  Agree-append (y ∷ p) q [] t a b = absurd a
  Agree-append (y ∷ p) q (x ∷ s) t a b = (a.0, Agree-append p q s t a.1 b)

  pub Agree-reverse : (p s : List Bytes) → Agree p s → Agree (reverse p) (reverse s)
  Agree-reverse [] [] a = tt
  Agree-reverse [] (x ∷ s) a = absurd a
  Agree-reverse (y ∷ p) [] a = absurd a
  Agree-reverse (y ∷ p) (x ∷ s) a =
      rw (reverse-cons, reverse-cons)
        (Agree-append (reverse p) (y ∷ []) (reverse s) (x ∷ []) (Agree-reverse p s a.1) (a.0, tt))

IsPlain-append : (p q : List Bytes) → IsPlain p → IsPlain q → IsPlain (p ++ q)
IsPlain-append [] q a b = b
IsPlain-append (x ∷ p) q a b = (a.0, IsPlain-append p q a.1 b)

pub IsPlain-reverse : (p : List Bytes) → IsPlain p → IsPlain (reverse p)
IsPlain-reverse [] h = tt
IsPlain-reverse (x ∷ p) h =
    rw reverse-cons (IsPlain-append (reverse p) (x ∷ []) (IsPlain-reverse p h.1) (h.0, tt))
