-- ===== src/StringBuffer/Contents.antt =====
-- Dynamic strings (src/util.c) against the texts that they hold.
use gantt.Prelude.{
  ℕ, zero, suc, ◌+◌, ◌-◌, ◌≤◌, ◌<◌, ◌≡◌, refl, sym, ◌∙◌, ap, Option, none, some, [], ◌∷◌, ◌++◌,
  arith, length, get_or, set, take, leb, replicate, Bool-cases, inl, inr, length-append,
  length-replicate, length-set, get_or-set_self, leb→le,
}
use mathlib.Core.Path.{subst}
use gantt.Text.{Bytes}
use gantt.Ivy.Revision.{or_empty}
use gantt.StringBuffer.{
  StringBuf, write_at, new_alloc, no_string, string_ensure_capacity, write_text, string_append,
  string_new, string_append_len, string_append_c, string_truncate, contents, string_initial_size,
}
use gantt.StringBuffer.Cells.{
  length-write_at, take-write_at, get_or-write_at, take-append, set-write_at, write_at-write_at,
  grow-ge,
}

-- The buffer has its cells, the text leaves room for its end, and a zero is there.
pub record IsValid (str : StringBuf) : Type 0 where
  pub sized : length str.cells ≡ str.alloc
  pub room : str.len < str.alloc
  pub ended : get_or str.cells str.len 1 ≡ 0

-- A valid string that holds the text.
abbrev pub Holds : StringBuf → Bytes → Type 0
Holds str text = IsValid str × (contents str ≡ text)

new_alloc-ge :
    (alloc needed : ℕ) → (needed ≤ new_alloc alloc needed) × (alloc ≤ new_alloc alloc needed)
unfolding new_alloc
new_alloc-ge zero needed =
    let (p, q) = grow-ge needed string_initial_size needed (omega arith) (omega arith) in
    ground arith
new_alloc-ge (suc alloc) needed =
    let (p, q) = grow-ge needed (suc alloc) needed (omega arith) (omega arith) in ground arith

module _ (junk : ℕ) where
  -- What growing the buffer gives.
  record HasRoom (str grown : StringBuf) (needed : ℕ) : Type 0 where
    sized : length grown.cells ≡ grown.alloc
    enough : needed ≤ grown.alloc
    same_len : grown.len ≡ str.len
    same_text : take str.len grown.cells ≡ take str.len str.cells

  ensure-HasRoom :
      (str : StringBuf) (needed : ℕ)
      → length str.cells ≡ str.alloc
      → str.len ≤ str.alloc
      → HasRoom str (string_ensure_capacity junk str needed) needed
  unfolding string_ensure_capacity
  ensure-HasRoom str needed s l = elim (Bool-cases (leb needed str.alloc)) [
    | inl e ↦ rw e (record { sized = s; enough = leb→le _ _ e; same_len = refl; same_text = refl })
    | inr e ↦
        let (enough, more) = new_alloc-ge str.alloc needed in
        rw e (record {
          sized = omega (
            arith,
            length-append str.cells (replicate (new_alloc str.alloc needed - str.alloc) junk),
            length-replicate (new_alloc str.alloc needed - str.alloc) junk,
          );
          enough = enough;
          same_len = refl;
          same_text = take-append str.len str.cells _ (omega arith);
        })
  ]

  write_text-Holds :
      (str : StringBuf) (val : Bytes)
      → length str.cells ≡ str.alloc
      → str.len + length val < str.alloc
      → Holds (write_text junk str val) (take str.len str.cells ++ val)
  unfolding write_text contents
  write_text-Holds str val s h = (
    record {
      sized = length-write_at str.cells str.len (val ++ 0 ∷ []) ∙ s;
      room = h;
      ended = get_or-write_at str.cells str.len (str.len + length val) val 0 1 refl (omega arith);
    },
    take-write_at str.cells str.len (str.len + length val) val (0 ∷ []) refl
        (omega (arith, length-append val (0 ∷ []))),
  )

  grown-Holds :
      (str grown : StringBuf) (val : Bytes) (needed : ℕ)
      → HasRoom str grown needed
      → str.len + length val < needed
      → Holds (write_text junk grown val) (take str.len str.cells ++ val)
  grown-Holds str grown val needed r h =
      let (valid, same) =
        write_text-Holds grown val r.sized (omega (arith, r.enough, r.same_len)) in
      (valid, same ∙ rw r.same_len (ap (λ t. t ++ val) r.same_text))

  -- Appending a text to a valid string gives a valid string that holds the text behind what the
  -- string held: every byte is written within the buffer, which has grown if it had to.
  pub string_append-Holds :
      (str : StringBuf) (val : Bytes)
      → IsValid str
      → Holds (string_append junk str val) (contents str ++ val)
  unfolding string_append contents
  string_append-Holds str val v =
      grown-Holds str _ val (str.len + length val + 1)
        (ensure-HasRoom str (str.len + length val + 1) v.sized (omega (arith, v.room)))
        (omega arith)

  set-write_text :
      (str : StringBuf) (val : Bytes) (n : ℕ)
      → n ≡ str.len + length val
      → record str { cells = set (write_at str.cells str.len val) n 0; len = n }
        ≡ write_text junk str val
  unfolding write_text
  set-write_text str val n e =
      rw
        (
          e,
          set-write_at (write_at str.cells str.len val) (str.len + length val) 0,
          write_at-write_at str.cells str.len (str.len + length val) val (0 ∷ []) refl,
        )
        refl

  empty-write_text :
      (str : StringBuf)
      → str.len ≡ 0
      → write_text junk str [] ≡ record str { cells = write_at str.cells 0 (0 ∷ []) }
  unfolding write_text
  empty-write_text str e = ground (arith, e)

  set-set-write_text :
      (str : StringBuf) (c : ℕ)
      → record str { cells = set (set str.cells str.len c) (str.len + 1) 0; len = str.len + 1 }
        ≡ write_text junk str (c ∷ [])
  set-set-write_text str c =
      rw (set-write_at str.cells str.len c)
        (set-write_text str (c ∷ []) (str.len + 1) (omega arith))

  length-take : (n : ℕ) (val : Bytes) → n ≤ length val → length (take n val) ≡ n
  length-take zero val h = refl
  length-take (suc n) [] h = absurd (omega arith)
  length-take (suc n) (c ∷ val) h = ap suc (length-take n val (omega arith))

  string_append_len-Holds :
      (str : StringBuf) (val : Bytes) (len : ℕ)
      → IsValid str
      → len ≤ length val
      → Holds (string_append_len junk str val len) (contents str ++ take len val)
  unfolding string_append_len contents
  string_append_len-Holds str val len v h =
      let grown = string_ensure_capacity junk str (str.len + len + 1) in
      let own = length-take len val h in
      subst (λ s. Holds s (take str.len str.cells ++ take len val))
        (sym (set-write_text grown (take len val) (grown.len + len) (omega (arith, own))))
        (grown-Holds str grown (take len val) (str.len + len + 1)
          (ensure-HasRoom str (str.len + len + 1) v.sized (omega (arith, v.room)))
          (omega (arith, own)))

  string_append_c-Holds :
      (str : StringBuf) (c : ℕ)
      → IsValid str
      → Holds (string_append_c junk str c) (contents str ++ c ∷ [])
  unfolding string_append_c contents
  string_append_c-Holds str c v =
      let grown = string_ensure_capacity junk str (str.len + 2) in
      subst (λ s. Holds s (take str.len str.cells ++ c ∷ [])) (sym (set-set-write_text grown c))
        (grown-Holds str grown (c ∷ []) (str.len + 2)
          (ensure-HasRoom str (str.len + 2) v.sized (omega (arith, v.room))) (omega arith))

  string_new-Holds : (init : Option Bytes) → Holds (string_new junk init) (or_empty init)
  unfolding string_new or_empty no_string
  string_new-Holds none =
      let grown = string_ensure_capacity junk (record { cells = []; len = 0; alloc = 0 }) 1 in
      let r = ensure-HasRoom (record { cells = []; len = 0; alloc = 0 }) 1 refl (omega arith) in
      let (valid, same) = grown-Holds _ grown [] 1 r (omega arith) in
      rw (set-write_at grown.cells 0 0)
        (subst (λ s. Holds s []) (empty-write_text grown r.same_len) (valid, same))
  string_new-Holds (some init) =
      grown-Holds _ _ init (length init + 1)
        (ensure-HasRoom (record { cells = []; len = 0; alloc = 0 }) (length init + 1) refl
          (omega arith))
        (omega arith)

  -- The other operations, on valid strings: a new string holds its text, the first bytes of a text
  -- or one character are appended, and a truncated string is empty. All of them are valid again.
  pub string_operations-Hold :
      (str : StringBuf) (init : Option Bytes) (val : Bytes) (len c : ℕ)
      → IsValid str
      → len ≤ length val
      → Holds (string_new junk init) (or_empty init)
        × Holds (string_append_len junk str val len) (contents str ++ take len val)
        × Holds (string_append_c junk str c) (contents str ++ c ∷ [])
        × Holds (string_truncate str) []
  unfolding string_truncate contents
  string_operations-Hold str init val len c v h = (
    string_new-Holds init,
    string_append_len-Holds str val len v h,
    string_append_c-Holds str c v,
    (
      record {
        sized = length-set str.cells 0 0 ∙ v.sized;
        room = omega (arith, v.room);
        ended = get_or-set_self str.cells 0 0 1 (omega (arith, v.room, v.sized));
      },
      refl,
    ),
  )
