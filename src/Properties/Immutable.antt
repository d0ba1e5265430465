-- ===== src/Properties/Immutable.antt =====
-- What a lookup finds after properties were set or read (src/property.c).
use gantt.Prelude.{
  ◌≡◌, refl, true, false, Option, none, some, List, [], ◌∷◌, arith, if◌then◌else◌, Option-cases,
  inl, inr, sym,
}
use gantt.Text.{Bytes, codes, streq, streq_iff, str_split}
use gantt.Dict.{Dict}
use gantt.Properties.{
  set_property_if_unset, set_entry, read_lines, line_entry, normalize_lines, property_read,
  property_parse_string,
}

-- The value of the first entry with the name, in the order of the lines.
pub first_value : Option Bytes → List Bytes → Bytes → Option Bytes
first_value prefix [] name = none
first_value prefix (line ∷ lines) name = elim (line_entry prefix line) [
  | none ↦ first_value prefix lines name
  | some (key, value) ↦ if streq key name then some value else first_value prefix lines name
]

-- The lines that a text is split into: no more than 4096, the last of which
-- holds what is left.
pub lines_of : Bytes → List Bytes
lines_of contents = elim (str_split (normalize_lines contents) (codes "\n") 4096) [
  | none ↦ []
  | some lines ↦ lines
]

-- A value that is there, or else another.
abbrev pub or_else : Option Bytes → Option Bytes → Option Bytes
or_else none other = other
or_else (some value) other = some value

or_else-none : (o : Option Bytes) → or_else o none ≡ o
or_else-none none = refl
or_else-none (some v) = refl

module _ (D : Dict Bytes) where
  -- Setting a property answers whether it was unset; afterwards a lookup of its name finds the old
  -- value, or the new one where there was none, and every other property is as it was.
  pub set_property_if_unset_lem :
      (t : Dict.Table D) (name value j : Bytes)
      → ((set_property_if_unset D t name value).0
          ≡ elim (Dict.lookup D t name) [ none ↦ true | some _ ↦ false ])
        × (Dict.lookup D (set_property_if_unset D t name value).1 j
            ≡ or_else (Dict.lookup D t j) (if streq name j then some value else none))
  unfolding set_property_if_unset
  set_property_if_unset_lem t name value j = elim (Option-cases (Dict.lookup D t name)) [
    | inl e ↦
        rw (e, set_property_if_unset)
          (refl, ground (arith, Dict.lookup-insert D t name j value, streq_iff name j))
    | inr (old, e) ↦ rw (e, set_property_if_unset) (refl, ground (arith, streq_iff name j))
  ]

  read_lines-lookup :
      (prefix : Option Bytes) (lines : List Bytes) (t : Dict.Table D) (j : Bytes)
      → Dict.lookup D (read_lines D prefix lines t) j
        ≡ or_else (Dict.lookup D t j) (first_value prefix lines j)
  unfolding read_lines first_value set_entry
  read_lines-lookup prefix [] t j = sym (or_else-none (Dict.lookup D t j))
  read_lines-lookup prefix (line ∷ lines) t j = elim (Option-cases (line_entry prefix line)) [
    | inl e ↦ rw (e, set_entry, read_lines, first_value) (read_lines-lookup prefix lines t j)
    | inr ((key, value), e) ↦ ground (
      arith,
      set_property_if_unset_lem t key value j,
      read_lines-lookup prefix lines (set_property_if_unset D t key value).1 j,
    )
  ]

  -- Where the text could be read, a lookup of any name finds afterwards what it found before, and
  -- where it found nothing, the first value that the text gives the name. Where it could not, every
  -- lookup finds what it found before.
  pub property_read-lookup :
      (t : Dict.Table D) (contents prefix : Option Bytes) (j : Bytes)
      → Dict.lookup D (property_read D t contents prefix).1 j
        ≡ or_else
            (Dict.lookup D t j)
            (elim contents [ none ↦ none | some text ↦ first_value prefix (lines_of text) j ])
  unfolding property_read property_parse_string lines_of first_value
  property_read-lookup t none prefix j = sym (or_else-none (Dict.lookup D t j))
  property_read-lookup t (some text) prefix j =
      elim (Option-cases (str_split (normalize_lines text) (codes "\n") 4096)) [
        | inl e ↦
            rw (e, property_parse_string, lines_of, first_value)
              (sym (or_else-none (Dict.lookup D t j)))
        | inr (lines, e) ↦
            rw (e, property_parse_string, lines_of) (read_lines-lookup prefix lines t j)
      ]
