-- ===== src/Text.antt =====
-- C strings as lists of bytes, and what src/util.c and the standard library do with them
-- (`strcmp`, `strstr`). `NULL` is `none`.
pub mod Split
pub mod Order
use Prim.Native.Char.{code}
use gantt.Prelude.{
  ℕ, zero, suc, ◌+◌, ◌-◌, String, ◌≡◌, ◌≢◌, refl, ◌↔◌, Bool, true, false, ◌&&◌, ◌||◌, Option, none,
  some, List, [], ◌∷◌, ◌++◌, map, arith, compare, Ordering, ltb, leb, ◌==◌, if◌then◌else◌, length,
  take, drop,
}

-- The bytes of a C string, without the terminating zero.
abbrev pub Bytes : Type 0
Bytes = List ℕ

-- The bytes of a literal of the source, which are ASCII.
abbrev pub codes : String → Bytes
codes String.[] = []
codes (String.◌∷◌ c s) = code c ∷ codes s

-- Two lists compared at the first place where they differ; a list that ends there is less.
unfoldable pub lexicographic : {A : Type 0} → (A → A → Ordering) → List A → List A → Ordering
lexicographic cmp [] [] = Ordering.eq
lexicographic cmp [] (b ∷ t) = Ordering.lt
lexicographic cmp (a ∷ s) [] = Ordering.gt
lexicographic cmp (a ∷ s) (b ∷ t) = elim (cmp a b) [
  | Ordering.lt ↦ Ordering.lt
  | Ordering.eq ↦ lexicographic cmp s t
  | Ordering.gt ↦ Ordering.gt
]

-- The sign of the standard library's `strcmp`.
unfoldable pub strcmp : Bytes → Bytes → Ordering
unfolding lexicographic
strcmp s t = lexicographic compare s t

-- The byte stands nowhere in the text.
abbrev pub Lacks : ℕ → Bytes → Type 0
Lacks b [] = Unit
Lacks b (c ∷ text) = (c ≢ b) × Lacks b text

-- `strcmp(s, t) == 0`
unfoldable pub streq : Bytes → Bytes → Bool
unfolding strcmp
streq s t = elim (strcmp s t) [ Ordering.eq ↦ true | _ ↦ false ]

streq_sound : (s t : Bytes) → streq s t ≡ true → s ≡ t
unfolding streq
streq_sound [] [] h = refl
streq_sound [] (b ∷ t) h = cc
streq_sound (a ∷ s) [] h = cc
streq_sound (a ∷ s) (b ∷ t) h = ground (arith, streq_sound s t)

pub streq_refl : (s : Bytes) → streq s s ≡ true
unfolding streq
streq_refl [] = refl
streq_refl (a ∷ s) = ground (arith, streq_refl s)

pub streq_iff : (s t : Bytes) → (streq s t ≡ true) ↔ (s ≡ t)
streq_iff s t = (streq_sound s t, λ e. ground (arith, streq_refl s, streq_refl t))

-- `strncmp(s, prefix, strlen(prefix)) == 0`, which is what `str_has_prefix` tests.
unfoldable pub str_has_prefix : Bytes → Bytes → Bool
str_has_prefix s [] = true
str_has_prefix [] (b ∷ prefix) = false
str_has_prefix (a ∷ s) (b ∷ prefix) = a == b && str_has_prefix s prefix

-- `str_has_suffix`, whose comparison starts as far before the end as the suffix is long.
unfoldable pub str_has_suffix : Bytes → Bytes → Bool
str_has_suffix s suffix =
    leb (length suffix) (length s) && streq (drop (length s - length suffix) s) suffix

-- The offset of the standard library's `strstr(s, delim)`, or `none` for `NULL`.
unfoldable pub strstr : Bytes → Bytes → Option ℕ
strstr [] delim = if str_has_prefix [] delim then some 0 else none
strstr (c ∷ s) delim =
    let rest = strstr s delim in
    if str_has_prefix (c ∷ s) delim
    then some 0
    else elim rest [ none ↦ none | some n ↦ some (suc n) ]

-- The two loops of `str_split`. Where the source passes a `max_tokens` of -1, or any other that is
-- not positive, it stands for no limit and is 0 here.
module _ (delim : Bytes) (max_tokens : ℕ) where
  -- The loop that counts. Each round moves `p` on, so the length of the text is fuel enough.
  unfoldable pub count_loop : ℕ → Bytes → ℕ → ℕ
  count_loop zero p count = count
  count_loop (suc fuel) p count = elim (strstr p delim) [
    | none ↦ count
    | some n ↦
        let next = count_loop fuel (drop (n + length delim) p) (count + 1) in
        if ltb 0 max_tokens && leb max_tokens (count + 1) then count + 1 else next
  ]

  -- The body of the loop that splits: the token, and where `p` stands afterwards. `last` is
  -- `i == count - 1`.
  unfoldable pub split_round : Bool → Bytes → Option ℕ → Bytes × Bytes
  split_round last p none = (p, p)
  split_round last p (some n) =
      if ltb 0 max_tokens && last then (p, p) else (take n p, drop (n + length delim) p)

  -- The loop that splits, over the rounds left.
  unfoldable pub split_loop : ℕ → Bytes → List Bytes
  split_loop zero p = []
  split_loop (suc left) p =
      let round = split_round (left == 0) p (strstr p delim) in round.0 ∷ split_loop left round.1

-- `str_split`; `none` is `NULL`.
unfoldable pub str_split : Bytes → Bytes → ℕ → Option (List Bytes)
str_split str [] max_tokens = none
str_split str (d ∷ delim) max_tokens = some (
    split_loop (d ∷ delim) max_tokens (count_loop (d ∷ delim) max_tokens (suc (length str)) str 1)
      str)

-- `isspace` in the C locale.
unfoldable pub isspace : ℕ → Bool
isspace c = c == 32 || (leb 9 c && leb c 13)

unfoldable pub skip_space : Bytes → Bytes
skip_space [] = []
skip_space (c ∷ str) = if isspace c then skip_space str else c ∷ str

-- The second loop of `str_strip`: `end` moves back over white space.
unfoldable pub strip_end : Bytes → Bytes
strip_end [] = []
strip_end (c ∷ str) = elim (strip_end str) [
  | [] ↦ if isspace c then [] else c ∷ []
  | d ∷ rest ↦ c ∷ d ∷ rest
]

unfoldable pub str_strip : Bytes → Bytes
str_strip str = strip_end (skip_space str)

-- `tolower` in the C locale.
unfoldable pub tolower : ℕ → ℕ
tolower c = if leb b'A' c && leb c b'Z' then c + 32 else c

unfoldable pub str_down : Bytes → Bytes
str_down str = map tolower str
