-- ===== src/Ivy/Revision/Tokens.antt =====
-- The tokens of `tokenize_revision` as runs of the text (src/ivy_parse.c).
use gantt.Prelude.{
  ℕ, zero, suc, ◌≤◌, ◌≡◌, refl, ◌≢◌, Bool, true, false, List, [], ◌∷◌, ◌++◌, arith, if◌then◌else◌,
  Bool-cases, inl, inr, ap, sym, ◌∙◌, length,
}
use gantt.Text.{Bytes}
use gantt.Text.Split.{All}
use gantt.Ivy.Revision.{
  RevToken, isdigit, is_separator, in_word, skip_separators, pass_over, token_kind, make_token,
  tokenize_loop, tokenize_revision, strtol,
}

-- The rest of a text does not go on with the kind of the token before it.
abbrev pub Ends : Bool → Bytes → Type 0
Ends numeric [] = Unit
Ends numeric (c ∷ rest) = token_kind numeric c ≡ false

-- The tokens are the runs of the text: before each, and behind the last, there are separators only,
-- and each token goes on as long as its kind does.
abbrev pub Runs : List RevToken → Bytes → Type 0
Runs [] p = All (λ c. is_separator c ≡ true) p
Runs (t ∷ tokens) p =
    (gap : Bytes) × (rest : Bytes) × (p ≡ gap ++ (t.str ++ rest))
    × All (λ c. is_separator c ≡ true) gap
    × Ends t.numeric rest
    × Runs tokens rest

-- A number that is the value of its digits, or a word with no digit and no separator.
pub record IsToken (t : RevToken) : Type 0 where
  pub nonempty : t.str ≢ []
  pub uniform : All (λ c. token_kind t.numeric c ≡ true) t.str
  pub value : t.num ≡ (if t.numeric then strtol t.str else 0)

-- What is skipped.
skip-gap :
    (p : Bytes)
    → (gap : Bytes) × (p ≡ gap ++ skip_separators p) × All (λ c. is_separator c ≡ true) gap
unfolding skip_separators
skip-gap [] = ([], refl, tt)
skip-gap (c ∷ p) = elim (Bool-cases (is_separator c)) [
  | inl e ↦ let (gap, shape, all) = skip-gap p in rw e (c ∷ gap, ap (λ t. c ∷ t) shape, (e, all))
  | inr e ↦ rw e ([], refl, tt)
]

skip-All : (p : Bytes) → skip_separators p ≡ [] → All (λ c. is_separator c ≡ true) p
unfolding skip_separators
skip-All [] h = tt
skip-All (c ∷ p) h = ground (arith, skip-All p)

length-skip : (p : Bytes) → length (skip_separators p) ≤ length p
unfolding skip_separators
length-skip [] = omega arith
length-skip (c ∷ p) = ground (arith, length-skip p)

skip-head :
    (p : Bytes) (c : ℕ) (rest : Bytes) → skip_separators p ≡ c ∷ rest → is_separator c ≡ false
unfolding skip_separators
skip-head [] c rest h = cc
skip-head (d ∷ p) c rest h = ground (arith, skip-head p c rest)

head-kind : (c : ℕ) → is_separator c ≡ false → token_kind (isdigit c) c ≡ true
unfolding token_kind in_word
head-kind c h = ground arith

pass_over-append : (kind : ℕ → Bool) (p : Bytes) → (pass_over kind p).0 ++ (pass_over kind p).1 ≡ p
unfolding pass_over
pass_over-append kind [] = refl
pass_over-append kind (c ∷ p) = ground (arith, pass_over-append kind p)

pass_over-All : (kind : ℕ → Bool) (p : Bytes) → All (λ c. kind c ≡ true) (pass_over kind p).0
unfolding pass_over
pass_over-All kind [] = tt
pass_over-All kind (c ∷ p) = elim (Bool-cases (kind c)) [
  | inl e ↦ rw e (e, pass_over-All kind p)
  | inr e ↦ rw e tt
]

pass_over-Ends : (b : Bool) (p : Bytes) → Ends b (pass_over (token_kind b) p).1
unfolding pass_over
pass_over-Ends b [] = tt
pass_over-Ends b (c ∷ p) = elim (Bool-cases (token_kind b c)) [
  | inl e ↦ rw e (pass_over-Ends b p)
  | inr e ↦ rw e e
]

length-pass_over : (kind : ℕ → Bool) (p : Bytes) → length (pass_over kind p).1 ≤ length p
unfolding pass_over
length-pass_over kind [] = omega arith
length-pass_over kind (c ∷ p) = ground (arith, length-pass_over kind p)

-- The first character is passed, so the rest is shorter.
pass_over-head :
    (kind : ℕ → Bool) (c : ℕ) (p : Bytes)
    → kind c ≡ true
    → (length (pass_over kind (c ∷ p)).1 ≤ length p) × ((pass_over kind (c ∷ p)).0 ≢ [])
unfolding pass_over
pass_over-head kind c p h = rw h (length-pass_over kind p, λ e. cc)

-- What tokenizing with this fuel gives.
abbrev Tokenizes : ℕ → Bytes → Type 0
Tokenizes fuel p = Runs (tokenize_loop fuel p) p × All IsToken (tokenize_loop fuel p)

make_token-IsToken :
    (b : Bool) (str : Bytes)
    → str ≢ []
    → All (λ c. token_kind b c ≡ true) str
    → IsToken (make_token b str)
unfolding make_token
make_token-IsToken b str n u = record { nonempty = n; uniform = u; value = refl }

tokenize-step :
    (fuel : ℕ) (p r : Bytes)
    → skip_separators p ≡ r
    → length r ≤ suc fuel
    → ((q : Bytes) → length q ≤ fuel → Tokenizes fuel q)
    → Tokenizes (suc fuel) p
unfolding tokenize_loop make_token
tokenize-step fuel p [] e h rec = rw (e, tokenize_loop) (skip-All p e, tt)
tokenize-step fuel p (c ∷ rest) e h rec =
    let kind = token_kind (isdigit c) in
    let run = pass_over kind (c ∷ rest) in
    let (shorter, nonempty) = pass_over-head kind c rest (head-kind c (skip-head p c rest e)) in
    let uniform = pass_over-All kind (c ∷ rest) in
    let (runs, tokens) = rec run.1 (omega arith) in
    let (gap, shape, all) = skip-gap p in
    rw (e, tokenize_loop)
      (
        (
          gap,
          run.1,
          shape ∙ ap (λ t. gap ++ t) (e ∙ sym (pass_over-append kind (c ∷ rest))),
          all,
          pass_over-Ends (isdigit c) (c ∷ rest),
          runs,
        ),
        (make_token-IsToken (isdigit c) run.0 nonempty uniform, tokens),
      )

tokenize_loop-Tokenizes : (fuel : ℕ) (p : Bytes) → length p ≤ fuel → Tokenizes fuel p
tokenize_loop-Tokenizes zero [] h = unfold tokenize_loop in (tt, tt)
tokenize_loop-Tokenizes zero (c ∷ p) h = absurd (omega arith)
tokenize_loop-Tokenizes (suc fuel) p h =
    tokenize-step fuel p (skip_separators p) refl (omega (arith, length-skip p))
      (tokenize_loop-Tokenizes fuel)

-- The tokens of a revision are its runs, in their order: between them there are separators only, a
-- token goes on as long as its kind does, and every token is either a number with the value of its
-- digits, cut off at the greatest `long`, or a word with neither digits nor separators.
pub tokenize_revision-Tokenizes :
    (rev : Bytes) → Runs (tokenize_revision rev) rev × All IsToken (tokenize_revision rev)
unfolding tokenize_revision
tokenize_revision-Tokenizes rev = tokenize_loop-Tokenizes (length rev) rev (omega arith)
