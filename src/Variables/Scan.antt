-- ===== src/Variables/Scan.antt =====
-- One replacement of `resolve_variables` (src/project.c).
use mathlib.Core.List.{append-nil, append_assoc}
use gantt.Prelude.{
  ℕ, ◌-◌, ◌≡◌, refl, ◌≢◌, ◌&&◌, Option, some, [], ◌∷◌, ◌++◌, arith, length, Bool-cases,
  Option-cases, inl, inr, ap, ◌==◌, take, length-append,
}
use gantt.Text.{Bytes}
pub use gantt.Text.{Lacks}
use gantt.Variables.{Mode, plain, in_variable, next_mode, replacement, scan, replace_first}

-- The reference to a name.
abbrev pub reference : Bytes → Bytes
reference name = b'$' ∷ b'{' ∷ (name ++ b'}' ∷ [])

take-length : (s : Bytes) (c : ℕ) → take (length s) (s ++ c ∷ []) ≡ s
take-length [] c = refl
take-length (x ∷ s) c = ap (λ (t : Bytes). x ∷ t) (take-length s c)

-- Dropping the last byte, as `string_new_len(value, i - 1)` does.
init-append : (s : Bytes) (c : ℕ) → take (length (s ++ c ∷ []) - 1) (s ++ c ∷ []) ≡ s
init-append s c =
    let e : length (s ++ c ∷ []) - 1 ≡ length s = omega (arith, length-append s (c ∷ [])) in
    rw e (take-length s c)

pub Lacks-append : (b : ℕ) (s t : Bytes) → Lacks b s → Lacks b t → Lacks b (s ++ t)
Lacks-append b [] t h k = k
Lacks-append b (c ∷ s) t h k = (h.0, Lacks-append b s t h.1 k)

opens :
    (seen before : Bytes) (c : ℕ)
    → seen ≡ before ++ b'$' ∷ []
    → c ≡ b'{'
    → seen ++ c ∷ [] ≡ before ++ b'$' ∷ b'{' ∷ []
opens seen before c h e = rw (h, e) (append_assoc before (b'$' ∷ []) (b'{' ∷ []))

closes :
    (buf name rest : Bytes) (c : ℕ)
    → c ≡ b'}'
    → (buf ++ (b'$' ∷ b'{' ∷ name)) ++ c ∷ rest ≡ buf ++ (reference name ++ rest)
closes buf name rest c e = rw e (simp append_assoc)

module _ (property : Bytes → Option Bytes) where
  -- A reference of the text was replaced by the value of its name.
  pub record Replaced (value value' : Bytes) : Type 0 where
    pub before : Bytes
    pub name : Bytes
    pub after : Bytes
    pub found : Bytes
    pub has_reference : value ≡ before ++ (reference name ++ after)
    pub closed : Lacks b'}' name
    pub is_set : property name ≡ some found
    pub becomes : value' ≡ before ++ (found ++ after)

  -- What the mode says of the text seen so far.
  abbrev Seen : Bytes → ℕ → Mode → Type 0
  Seen seen last plain = last ≡ b'$' → seen ≡ take (length seen - 1) seen ++ b'$' ∷ []
  Seen seen last (in_variable buf var_name) =
      (seen ≡ buf ++ (b'$' ∷ b'{' ∷ var_name)) × Lacks b'}' var_name

  Seen-plain : (seen : Bytes) (c : ℕ) → Seen (seen ++ c ∷ []) c plain
  Seen-plain seen c e = rw (init-append, e)

  Seen-next :
      (seen : Bytes) (last c : ℕ) (mode : Mode)
      → Seen seen last mode
      → Seen (seen ++ c ∷ []) c (next_mode property seen last c mode)
  unfolding next_mode
  Seen-next seen last c plain s = elim (Bool-cases (c == b'{' && last == b'$')) [
    | inl e ↦
        rw e (opens seen (take (length seen - 1) seen) c (s (ground arith)) (ground arith), tt)
    | inr e ↦ rw e (Seen-plain seen c)
  ]
  Seen-next seen last c (in_variable buf var_name) s = elim (Bool-cases (c == b'}')) [
    | inl e ↦ rw e (Seen-plain seen c)
    | inr e ↦
        rw e (rw (s.0, append_assoc), Lacks-append b'}' var_name (c ∷ []) s.1 (ground arith, tt))
  ]

  replacement_sound :
      (seen : Bytes) (last c : ℕ) (mode : Mode) (rest : Bytes) {value' : Bytes}
      → Seen seen last mode
      → replacement property c mode rest ≡ some value'
      → Replaced (seen ++ c ∷ rest) value'
  unfolding replacement
  replacement_sound seen last c plain rest s h = cc
  replacement_sound seen last c (in_variable buf var_name) rest s h =
      elim (Option-cases (property var_name)) [
        | inl e ↦ ground arith
        | inr (v, e) ↦ record {
          before = buf;
          name = var_name;
          after = rest;
          found = v;
          has_reference = rw s.0 (closes buf var_name rest c (ground arith));
          closed = s.1;
          is_set = e;
          becomes = ground arith;
        }
      ]

  scan_sound :
      (seen : Bytes) (last : ℕ) (mode : Mode) (rest : Bytes) {value' : Bytes}
      → Seen seen last mode
      → scan property seen last mode rest ≡ some value'
      → Replaced (seen ++ rest) value'
  unfolding scan
  scan_sound seen last mode [] s h = cc
  scan_sound seen last mode (c ∷ rest) {value'} s h =
      elim (Option-cases (replacement property c mode rest)) [
        | inl e ↦ rw (append_assoc seen (c ∷ []) rest) at (
            scan_sound (seen ++ c ∷ []) c (next_mode property seen last c mode) rest
              {value' = value'} (Seen-next seen last c mode s) (ground arith))
        | inr (v, e) ↦ replacement_sound seen last c mode rest s (ground arith)
      ]

  -- A replacement takes out a whole reference whose name is set, and puts the value in its place;
  -- the text before and behind it stays.
  pub replace_first-Replaced :
      (value : Bytes) {value' : Bytes}
      → replace_first property value ≡ some value'
      → Replaced value value'
  unfolding replace_first
  replace_first-Replaced value h = scan_sound [] 0 plain value (λ e. absurd (omega arith)) h

  pub scan-name :
      (seen : Bytes) (last : ℕ) (buf var_name name rest v : Bytes)
      → Lacks b'}' name
      → property (var_name ++ name) ≡ some v
      → scan property seen last (in_variable buf var_name) (name ++ b'}' ∷ rest)
        ≡ some (buf ++ (v ++ rest))
  unfolding scan replacement next_mode
  scan-name seen last buf var_name [] rest v h e = rw (rw append-nil at e)
  scan-name seen last buf var_name (c ∷ name) rest v h e = ground (
    arith,
    h.0,
    scan-name (seen ++ c ∷ []) c buf (var_name ++ c ∷ []) name rest v h.1
        (rw (append_assoc var_name (c ∷ []) name) e),
  )

  pub scan-text :
      (seen : Bytes) (last : ℕ) (text rest : Bytes)
      → last ≢ b'$'
      → Lacks b'$' text
      → scan property seen last plain (text ++ b'$' ∷ b'{' ∷ rest)
        ≡ scan property
            (seen ++ (text ++ b'$' ∷ b'{' ∷ []))
            b'{'
            (in_variable (seen ++ text) [])
            rest
  unfolding scan replacement next_mode
  scan-text seen last [] rest n h =
      rw (append_assoc seen (b'$' ∷ []) (b'{' ∷ []), init-append seen b'$', append-nil seen)
  scan-text seen last (c ∷ text) rest n h = ground (
    arith,
    scan-text (seen ++ c ∷ []) c text rest h.0 h.1,
    append_assoc seen (c ∷ []) (text ++ b'$' ∷ b'{' ∷ []),
    append_assoc seen (c ∷ []) text,
  )

  -- In a text with no "$" before it, a reference whose name is set and has no "}" is replaced by
  -- the value of its name.
  pub replace_first-reference :
      (before name after v : Bytes)
      → Lacks b'$' before
      → Lacks b'}' name
      → property name ≡ some v
      → replace_first property (before ++ (reference name ++ after)) ≡ some (before ++ (v ++ after))
  unfolding replace_first
  replace_first-reference before name after v d c e =
      let shape : before ++ (reference name ++ after)
          ≡ before ++ b'$' ∷ b'{' ∷ (name ++ b'}' ∷ after) =
        ap (λ (t : Bytes). before ++ b'$' ∷ b'{' ∷ t) (append_assoc name (b'}' ∷ []) after) in
      rw (shape, scan-text [] 0 before (name ++ b'}' ∷ after) (omega arith) d)
        (scan-name _ b'{' before [] name after v c e)
