-- ===== src/Text/Split.antt =====
-- The tokens of `str_split` (src/util.c).
use gantt.Prelude.{
  ℕ, zero, suc, ◌+◌, ◌<◌, ◌≤◌, ◌≡◌, refl, ◌≢◌, ◌⊎◌, true, false, ◌&&◌, none, some, List, [], ◌∷◌,
  ◌++◌, arith, length, Bool-cases, inl, inr, Option-cases, ap, leb, ltb, ◌==◌, take, drop,
}
use gantt.Prelude.{length-drop}
use native.Mathlib.Nat.{zero-add, suc-add}
use gantt.Text.{Bytes, str_has_prefix, strstr, count_loop, split_round, split_loop, str_split}

-- The tokens with the delimiter between them.
unfoldable pub join : Bytes → List Bytes → Bytes
join delim [] = []
join delim (token ∷ []) = token
join delim (token ∷ t ∷ rest) = token ++ (delim ++ join delim (t ∷ rest))

abbrev pub All {ℓ} : {A : Type ℓ} → (A → Type 0) → List A → Type 0
All P [] = Unit
All P (x ∷ xs) = P x × All P xs

has_prefix-drop :
    (s prefix : Bytes) → str_has_prefix s prefix ≡ true → prefix ++ drop (length prefix) s ≡ s
unfolding str_has_prefix
has_prefix-drop s [] h = refl
has_prefix-drop [] (b ∷ prefix) h = cc
has_prefix-drop (a ∷ s) (b ∷ prefix) h = ground (arith, has_prefix-drop s prefix)

-- What stands around the first occurrence.
pub strstr-append :
    (s delim : Bytes) (n : ℕ)
    → strstr s delim ≡ some n
    → take n s ++ (delim ++ drop (n + length delim) s) ≡ s
unfolding strstr
strstr-append [] delim zero h = rw zero-add (ground (arith, has_prefix-drop [] delim))
strstr-append [] delim (suc n) h = ground arith
strstr-append (c ∷ s) delim zero h = rw zero-add (ground (arith, has_prefix-drop (c ∷ s) delim))
strstr-append (c ∷ s) delim (suc n) h =
    rw suc-add (ap (λ (t : Bytes). c ∷ t) (strstr-append s delim n (ground arith)))

has_prefix-take :
    (s delim : Bytes) (n : ℕ)
    → str_has_prefix s delim ≡ false
    → str_has_prefix (take n s) delim ≡ false
unfolding str_has_prefix
has_prefix-take s [] n h = cc
has_prefix-take s (b ∷ delim) zero h = refl
has_prefix-take [] (b ∷ delim) (suc n) h = refl
has_prefix-take (a ∷ s) (b ∷ delim) (suc n) h = ground (arith, has_prefix-take s delim n)

-- No occurrence stands before the first.
pub strstr-take :
    (s delim : Bytes) (n : ℕ)
    → delim ≢ []
    → strstr s delim ≡ some n
    → strstr (take n s) delim ≡ none
unfolding strstr str_has_prefix
strstr-take s [] n d h = absurd (d refl)
strstr-take [] (b ∷ delim) n d h = ground arith
strstr-take (c ∷ s) (b ∷ delim) zero d h = refl
strstr-take (c ∷ s) (b ∷ delim) (suc n) d h =
    ground (arith, has_prefix-take s delim n, strstr-take s (b ∷ delim) n d)

length-nonempty : (s : Bytes) → s ≢ [] → 0 < length s
length-nonempty [] h = absurd (h refl)
length-nonempty (c ∷ s) h = omega arith

strstr-nonempty : (s delim : Bytes) (n : ℕ) → delim ≢ [] → strstr s delim ≡ some n → 0 < length s
unfolding strstr str_has_prefix
strstr-nonempty [] [] n d h = absurd (d refl)
strstr-nonempty [] (b ∷ delim) n d h = ground arith
strstr-nonempty (c ∷ s) delim n d h = omega arith

module _ (delim : Bytes) (max_tokens : ℕ) where
  not_last :
      (r : ℕ) (p : Bytes) (n : ℕ)
      → split_round delim max_tokens (suc r == 0) p (some n) ≡ (take n p, drop (n + length delim) p)
  unfolding split_round
  not_last r p n = ground arith

  join-split_loop :
      (r : ℕ) (token p : Bytes)
      → join delim (token ∷ split_loop delim max_tokens (suc r) p)
        ≡ token ++ (delim ++ join delim (split_loop delim max_tokens (suc r) p))
  unfolding join split_loop
  join-split_loop r token p = refl

  split_step :
      (r : ℕ) (p : Bytes) (n : ℕ)
      → strstr p delim ≡ some n
      → split_loop delim max_tokens (suc (suc r)) p
        ≡ take n p ∷ split_loop delim max_tokens (suc r) (drop (n + length delim) p)
  unfolding split_loop
  split_step r p n e = rw (e, not_last r p n)

  split_end :
      (p : Bytes)
      → (strstr p delim ≡ none) ⊎ (ltb 0 max_tokens ≡ true)
      → split_loop delim max_tokens 1 p ≡ p ∷ []
  unfolding split_loop split_round
  split_end p (inl e) = rw e
  split_end p (inr e) = elim (Option-cases (strstr p delim)) [
    | inl f ↦ rw f
    | inr (n, f) ↦ rw (f, e)
  ]

  -- The tokens of `p`, when `count` were counted before it and `r` behind it.
  record IsSplit (p : Bytes) (count r : ℕ) : Type 0 where
    pub joined : join delim (split_loop delim max_tokens (suc r) p) ≡ p
    pub clean :
        max_tokens ≡ 0 → All (λ t. strstr t delim ≡ none) (split_loop delim max_tokens (suc r) p)
    pub limited : 0 < max_tokens → count < max_tokens → count + r ≤ max_tokens

  IsSplit-end : (p : Bytes) (count : ℕ) → strstr p delim ≡ none → IsSplit p count 0
  unfolding join
  IsSplit-end p count e = record {
    joined = rw (split_end p (inl e));
    clean = λ m. rw (split_end p (inl e)) (e, tt);
    limited = λ m l. omega arith;
  }

  module _ (p : Bytes) (n count : ℕ) (nonempty : delim ≢ []) (found : strstr p delim ≡ some n) where
    abbrev rest : Bytes
    rest = drop (n + length delim) p

    IsSplit-limit : ltb 0 max_tokens ≡ true → IsSplit p count 1
    unfolding join
    IsSplit-limit m = record {
      joined = rw (split_step 0 p n found, split_end rest (inr m)) (strstr-append p delim n found);
      clean = λ z. absurd (ground arith);
      limited = λ z l. omega arith;
    }

    IsSplit-next :
        (r : ℕ)
        → ltb 0 max_tokens && leb max_tokens (count + 1) ≡ false
        → IsSplit rest (count + 1) r
        → IsSplit p count (suc r)
    IsSplit-next r m s = record {
      joined =
          rw (split_step r p n found)
            (rw (join-split_loop r, s.joined) (strstr-append p delim n found));
      clean = λ z. rw (split_step r p n found) (strstr-take p delim n nonempty found, s.clean z);
      limited = λ z l. ground (arith, s.limited z);
    }

  -- Enough fuel to count is one round for each byte.
  count_loop-IsSplit :
      (fuel : ℕ) (p : Bytes) (count : ℕ)
      → delim ≢ []
      → length p < fuel
      → (r : ℕ) × (count_loop delim max_tokens fuel p count ≡ count + r) × IsSplit p count r
  unfolding count_loop
  count_loop-IsSplit zero p count d h = absurd (omega arith)
  count_loop-IsSplit (suc fuel) p count d h = elim (Option-cases (strstr p delim)) [
    | inl e ↦ (0, rw (e, count_loop) (omega arith), IsSplit-end p count e)
    | inr (n, e) ↦
        let shorter : length (drop (n + length delim) p) < fuel = omega (
          arith,
          length-drop (n + length delim) p,
          strstr-nonempty p delim n d e,
          length-nonempty delim d,
        ) in
        elim (Bool-cases (ltb 0 max_tokens && leb max_tokens (count + 1))) [
          | inl stop ↦ (1, rw (e, count_loop, stop), IsSplit-limit p n count d e (ground arith))
          | inr go ↦
              let (r, counted, s) =
                count_loop-IsSplit fuel (drop (n + length delim) p) (count + 1) d shorter in
              (suc r, rw (e, count_loop, go) (omega arith), IsSplit-next p n count d e r go s)
        ]
  ]

length-split_loop :
    (delim : Bytes) (max_tokens left : ℕ) (p : Bytes)
    → length (split_loop delim max_tokens left p) ≡ left
unfolding split_loop
length-split_loop delim max_tokens zero p = refl
length-split_loop delim max_tokens (suc left) p = ap suc (length-split_loop delim max_tokens left _)

str_split-tokens :
    (str delim : Bytes) (max_tokens : ℕ)
    → delim ≢ []
    → (tokens : List Bytes) × (str_split str delim max_tokens ≡ some tokens)
      × (0 < length tokens)
      × (join delim tokens ≡ str)
      × (max_tokens ≡ 0 → All (λ t. strstr t delim ≡ none) tokens)
      × (1 < max_tokens → length tokens ≤ max_tokens)
unfolding str_split
str_split-tokens str [] max_tokens d = absurd (d refl)
str_split-tokens str (b ∷ delim) max_tokens d =
    let (r, counted, s) =
      count_loop-IsSplit (b ∷ delim) max_tokens (suc (length str)) str 1 d (omega arith) in
    let r' : count_loop (b ∷ delim) max_tokens (suc (length str)) str 1 ≡ suc r = omega arith in
    let size = length-split_loop (b ∷ delim) max_tokens (suc r) str in
    (
      split_loop (b ∷ delim) max_tokens (suc r) str,
      rw r',
      omega (arith, size),
      s.joined,
      s.clean,
      λ m. omega (arith, size, s.limited (omega arith) m),
    )

-- Splitting at a non-empty delimiter succeeds with at least one token, and the tokens with the
-- delimiter between them are the text again, whatever the limit.
pub str_split_lem :
    (str delim : Bytes) (max_tokens : ℕ)
    → delim ≢ []
    → (tokens : List Bytes) × (str_split str delim max_tokens ≡ some tokens)
      × (0 < length tokens)
      × (join delim tokens ≡ str)
str_split_lem str delim max_tokens d =
    let (tokens, e, positive, whole, _, _) = str_split-tokens str delim max_tokens d in
    (tokens, e, positive, whole)

-- Without a limit, no token that splitting at a non-empty delimiter gives holds the delimiter.
pub str_split_unlimited :
    (str delim : Bytes)
    → delim ≢ []
    → (tokens : List Bytes) × (str_split str delim 0 ≡ some tokens)
      × All (λ t. strstr t delim ≡ none) tokens
str_split_unlimited str delim d =
    let (tokens, e, _, _, free, _) = str_split-tokens str delim 0 d in (tokens, e, free refl)

-- With a limit of two or more, splitting at a non-empty delimiter gives no more tokens than the
-- limit.
pub str_split_limited :
    (str delim : Bytes) (max_tokens : ℕ)
    → delim ≢ []
    → 1 < max_tokens
    → (tokens : List Bytes) × (str_split str delim max_tokens ≡ some tokens)
      × (length tokens ≤ max_tokens)
str_split_limited str delim max_tokens d h =
    let (tokens, e, _, _, _, few) = str_split-tokens str delim max_tokens d in (tokens, e, few h)
