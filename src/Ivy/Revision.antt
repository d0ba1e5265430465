-- ===== src/Ivy/Revision.antt =====
-- `tokenize_revision` and `ivy_compare_revisions` of src/ivy_parse.c.
pub mod Tokens
pub mod Compare
use gantt.Prelude.{
  ℕ, zero, suc, ◌+◌, ◌-◌, ◌*◌, ◌^◌, Bool, true, false, ◌&&◌, ◌||◌, not, Option, none, some, List,
  [], ◌∷◌, ◌++◌, compare, Ordering, leb, ◌==◌, if◌then◌else◌, length,
}
use gantt.Text.{Bytes, strcmp, streq, lexicographic}

unfoldable pub isdigit : ℕ → Bool
isdigit c = leb b'0' c && leb c b'9'

unfoldable pub is_separator : ℕ → Bool
is_separator c = c == b'.' || c == b'-' || c == b'_'

unfoldable pub in_word : ℕ → Bool
unfolding isdigit is_separator
in_word c = not (is_separator c) && not (isdigit c)

-- `rev_token_t`
pub record RevToken : Type 0 where
  pub numeric : Bool
  pub num : ℕ
  pub str : Bytes

abbrev pub long_max : ℕ
long_max = 2 ^ 63 - 1

unfoldable pub digits_value : ℕ → Bytes → ℕ
digits_value n [] = n
digits_value n (c ∷ str) = digits_value (n * 10 + (c - b'0')) str

-- The standard library's `strtol` with base 10, on a run of digits: too large a number gives
-- `LONG_MAX`, here that of a 64-bit `long`.
unfoldable pub strtol : Bytes → ℕ
unfolding digits_value
strtol str = let n = digits_value 0 str in if leb n long_max then n else long_max

unfoldable pub skip_separators : Bytes → Bytes
skip_separators [] = []
skip_separators (c ∷ p) = if is_separator c then skip_separators p else c ∷ p

-- A loop that moves `p` over the characters of one kind: what it passed, and where it stands.
unfoldable pub pass_over : (ℕ → Bool) → Bytes → Bytes × Bytes
pass_over kind [] = ([], [])
pass_over kind (c ∷ p) =
    let rest = pass_over kind p in if kind c then (c ∷ rest.0, rest.1) else ([], c ∷ p)

unfoldable pub token_kind : Bool → ℕ → Bool
token_kind true = isdigit
token_kind false = in_word

unfoldable pub make_token : Bool → Bytes → RevToken
make_token numeric str = record {
  numeric = numeric;
  num = if numeric then strtol str else 0;
  str = str;
}

-- The outer loop of `tokenize_revision`. Each round takes a character at least, so the length of
-- the text is fuel enough.
unfoldable pub tokenize_loop : ℕ → Bytes → List RevToken
tokenize_loop zero p = []
tokenize_loop (suc fuel) p = elim (skip_separators p) [
  | [] ↦ []
  | c ∷ rest ↦
      let run = pass_over (token_kind (isdigit c)) (c ∷ rest) in
      make_token (isdigit c) run.0 ∷ tokenize_loop fuel run.1
]

unfoldable pub tokenize_revision : Bytes → List RevToken
tokenize_revision rev = tokenize_loop (length rev) rev

-- A round of the loop of `ivy_compare_revisions`; -1, 0 and 1 are `lt`, `eq` and `gt`.
unfoldable pub compare_token : RevToken → RevToken → Ordering
compare_token ka kb =
    if ka.numeric && kb.numeric
    then compare ka.num kb.num
    else if ka.numeric
    then Ordering.gt
    else if kb.numeric
    then Ordering.lt
    else strcmp ka.str kb.str

-- `NULL` is read as "".
unfoldable pub or_empty : Option Bytes → Bytes
or_empty none = []
or_empty (some rev) = rev

unfoldable pub compare_revisions : Option Bytes → Option Bytes → Ordering
compare_revisions a b =
    if streq (or_empty a) (or_empty b)
    then Ordering.eq
    else lexicographic compare_token (tokenize_revision (or_empty a))
        (tokenize_revision (or_empty b))
