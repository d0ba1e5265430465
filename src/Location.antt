-- ===== src/Location.antt =====
-- `expand_location` of src/property.c, on a system whose separator is "/": "\" becomes "/", and a
-- relative location is put behind the base directory. The working directory, which is used when
-- the project has no base directory, is a parameter.
use gantt.Prelude.{
  ℕ, ◌≡◌, refl, ◌≢◌, ◌||◌, Option, none, some, [], ◌∷◌, ◌++◌, map, arith, ◌==◌, if◌then◌else◌,
  Bool-cases, inl, inr,
}
use gantt.Text.{Bytes}
use gantt.Match.{ends_in_slash}

-- A character of `str_delimit(location, "/\\", '/')`.
unfoldable pub separate : ℕ → ℕ
separate c = if c == b'/' || c == b'\\' then b'/' else c

-- The base directory with a separator at its end, unless it is empty.
unfoldable pub with_separator : Bytes → Bytes
with_separator [] = []
with_separator (c ∷ base_dir) =
    if ends_in_slash (c ∷ base_dir) then c ∷ base_dir else c ∷ (base_dir ++ b'/' ∷ [])

unfoldable pub join_location : Bytes → Bytes → Bytes
join_location base_dir [] = []
join_location base_dir (c ∷ location) = if c == b'/' then c ∷ location else base_dir ++ c ∷ location

unfoldable pub base_or : Option Bytes → Bytes → Bytes
base_or none current_dir = current_dir
base_or (some base_dir) current_dir = base_dir

unfoldable pub expand_location : Bytes → Option Bytes → Bytes → Bytes
expand_location current_dir base_dir location =
    join_location (with_separator (base_or base_dir current_dir)) (map separate location)

-- Begins with "/".
abbrev pub IsAbsolute : Bytes → Type 0
IsAbsolute [] = ⊥
IsAbsolute (c ∷ location) = c ≡ b'/'

join-absolute :
    (base location : Bytes) → IsAbsolute location → join_location base location ≡ location
unfolding join_location
join-absolute base [] h = absurd h
join-absolute base (c ∷ location) h = rw h refl

with_separator-IsAbsolute : (base : Bytes) → IsAbsolute base → IsAbsolute (with_separator base)
unfolding with_separator
with_separator-IsAbsolute [] h = absurd h
with_separator-IsAbsolute (c ∷ base) h = elim (Bool-cases (ends_in_slash (c ∷ base))) [
  | inl e ↦ rw e h
  | inr e ↦ rw e h
]

append-IsAbsolute : (base location : Bytes) → IsAbsolute base → IsAbsolute (base ++ location)
append-IsAbsolute [] location h = absurd h
append-IsAbsolute (c ∷ base) location h = h

join-IsAbsolute :
    (base location : Bytes)
    → IsAbsolute base
    → location ≢ []
    → IsAbsolute (join_location base location)
unfolding join_location
join-IsAbsolute base [] h n = absurd (n refl)
join-IsAbsolute base (c ∷ location) h n = elim (Bool-cases (c == b'/')) [
  | inl e ↦ rw e (ground arith)
  | inr e ↦ rw e (append-IsAbsolute base (c ∷ location) h)
]

map-nonempty : (location : Bytes) → location ≢ [] → map separate location ≢ []
map-nonempty [] h = λ e. h refl
map-nonempty (c ∷ location) h = λ e. cc

-- With an absolute base directory, a location that is not empty expands to an absolute one.
pub expand_location-IsAbsolute :
    (current_dir base_dir location : Bytes)
    → IsAbsolute base_dir
    → location ≢ []
    → IsAbsolute (expand_location current_dir (some base_dir) location)
unfolding expand_location base_or
expand_location-IsAbsolute current_dir base_dir location h n =
    join-IsAbsolute (with_separator base_dir) (map separate location)
      (with_separator-IsAbsolute base_dir h) (map-nonempty location n)

separate_idem : (c : ℕ) → separate (separate c) ≡ separate c
unfolding separate
separate_idem c = ground arith

map-separate_idem : (s : Bytes) → map separate (map separate s) ≡ map separate s
map-separate_idem [] = refl
map-separate_idem (c ∷ s) = rw (separate_idem c, map-separate_idem s) refl

-- A location that begins with a separator expands to itself, but for each "\" that becomes a "/",
-- whatever the base directory; expanding the result again changes nothing.
pub expand_location_absolute :
    (current_dir : Bytes) (base_dir : Option Bytes) (location : Bytes)
    → IsAbsolute (map separate location)
    → (expand_location current_dir base_dir location ≡ map separate location)
      × (expand_location current_dir base_dir (map separate location) ≡ map separate location)
unfolding expand_location
expand_location_absolute current_dir base_dir location h = (
  join-absolute _ (map separate location) h,
  rw (map-separate_idem location) (join-absolute _ (map separate location) h),
)
