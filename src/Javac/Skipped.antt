-- ===== src/Javac/Skipped.antt =====
-- The sources that are not compiled again (src/javac.c).
use mathlib.Core.List.{append_assoc}
use gantt.Prelude.{
  ℕ, ◌≤◌, ◌≡◌, ◌≢◌, ◌<◌, zero, suc, ◌&&◌, drop, refl, ◌∙◌, sym, ap, Bool, true, false, not, Option,
  none, some, List, [], ◌∷◌, ◌++◌, ltb, arith, Bool-cases, Option-cases, inl, inr, leb→le, take,
  length, ◌-◌,
}
use gantt.Text.{Bytes, codes, streq, streq_iff}
use gantt.Javac.{
  Files, ends_with, at_least, some_newer, has_newer_class_in_dir, some_subdir_newer,
  has_newer_below, base_name, dir_name, class_file_of, needs_relative, needs_compilation,
}

append-nonempty : (s t : Bytes) → t ≢ [] → s ++ t ≢ []
append-nonempty [] t n = n
append-nonempty (c ∷ s) t n = λ e. cc

-- Where a directory of the directory lies.
nested :
    (dir name path : Bytes)
    → dir ++ codes "/" ++ (name ++ codes "/" ++ path) ++ codes ".class"
      ≡ dir ++ codes "/" ++ name ++ codes "/" ++ path ++ codes ".class"
nested dir name path = simp append_assoc

take-drop : (n : ℕ) (s : Bytes) → take n s ++ drop n s ≡ s
take-drop zero s = refl
take-drop (suc n) [] = refl
take-drop (suc n) (c ∷ s) = ap (λ t. c ∷ t) (take-drop n s)

take-nonempty : (n : ℕ) (s : Bytes) → (0 < n) × (0 < length s) → take n s ≢ []
take-nonempty zero s h = absurd (omega (arith, h.0))
take-nonempty (suc n) [] h = absurd (omega (arith, h.1))
take-nonempty (suc n) (c ∷ s) h = λ e. cc

class_path :
    (dir stem name : Bytes)
    → name ≡ stem ++ codes ".class"
    → dir ++ codes "/" ++ stem ++ codes ".class" ≡ dir ++ codes "/" ++ name
class_path dir stem name e = rw e (append_assoc (dir ++ codes "/") stem (codes ".class"))

-- A name with a shorter end is a beginning and this end.
split_end :
    (name suffix : Bytes)
    → ends_with name suffix ≡ true
    → (stem : Bytes) × (stem ≢ []) × (name ≡ stem ++ suffix)
unfolding ends_with
split_end name suffix h = (
  take (length name - length suffix) name,
  take-nonempty (length name - length suffix) name (ground arith),
  sym (take-drop (length name - length suffix) name)
      ∙ ap (λ t. take (length name - length suffix) name ++ t)
          ((streq_iff (drop (length name - length suffix) name) suffix).0 (ground arith)),
)

module _ (files : Files) where
  -- A class file below the directory that is not older.
  abbrev pub HasNewer : Bytes → ℕ → Type 0
  HasNewer dir source_mtime =
      (path : Bytes) × (t : ℕ) × (path ≢ [])
      × (Files.mtime files (dir ++ codes "/" ++ path ++ codes ".class") ≡ some t)
      × (source_mtime ≤ t)

  at_least-some : (o : Option ℕ) (m : ℕ) → at_least o m ≡ true → (t : ℕ) × (o ≡ some t) × (m ≤ t)
  unfolding at_least
  at_least-some none m h = cc
  at_least-some (some t) m h = (t, refl, leb→le m t h)

  -- A directory of the directory.
  HasNewer-child :
      (dir name : Bytes) (m : ℕ) → HasNewer (dir ++ codes "/" ++ name) m → HasNewer dir m
  HasNewer-child dir name m (path, t, n, e, l) = (
    name ++ codes "/" ++ path,
    t,
    append-nonempty (name ++ codes "/") path n,
    ap (Files.mtime files) (nested dir name path) ∙ e,
    l,
  )

  some_newer_sound :
      (dir : Bytes) (m : ℕ) (prefix : Option Bytes) (entries : List Bytes)
      → some_newer files dir m prefix entries ≡ true
      → HasNewer dir m
  unfolding some_newer
  some_newer_sound dir m prefix [] h = cc
  some_newer_sound dir m prefix (name ∷ entries) h =
      elim (Bool-cases (
        ends_with name (codes ".class")
        && at_least (Files.mtime files (dir ++ codes "/" ++ name)) m)) [
          | inl e ↦
              let (stem, n, shape) = split_end name (codes ".class") (ground arith) in
              let (t, s, l) =
                at_least-some (Files.mtime files (dir ++ codes "/" ++ name)) m (ground arith) in
              (stem, t, n, ap (Files.mtime files) (class_path dir stem name shape) ∙ s, l)
          | inr e ↦ some_newer_sound dir m prefix entries (ground arith)
        ]

  HasNewer-sound :
      (dir : Bytes) (m : ℕ) (prefix : Option Bytes)
      → has_newer_class_in_dir files dir m prefix ≡ true
      → HasNewer dir m
  unfolding has_newer_class_in_dir
  HasNewer-sound dir m prefix h = elim (Option-cases (Files.readdir files dir)) [
    | inl e ↦ ground arith
    | inr (entries, e) ↦ some_newer_sound dir m prefix entries (rw (e, has_newer_class_in_dir) at h)
  ]

  some_subdir_sound :
      (dir : Bytes) (m : ℕ) (entries : List Bytes)
      → some_subdir_newer files dir m entries ≡ true
      → HasNewer dir m
  unfolding some_subdir_newer
  some_subdir_sound dir m [] h = cc
  some_subdir_sound dir m (name ∷ entries) h =
      elim (Bool-cases (has_newer_class_in_dir files (dir ++ codes "/" ++ name) m none)) [
        | inl e ↦ HasNewer-child dir name m (HasNewer-sound (dir ++ codes "/" ++ name) m none e)
        | inr e ↦ some_subdir_sound dir m entries (ground arith)
      ]

  below_sound : (dir : Bytes) (m : ℕ) → has_newer_below files dir m ≡ true → HasNewer dir m
  unfolding has_newer_below
  below_sound dir m h = elim (Option-cases (Files.readdir files dir)) [
    | inl e ↦ ground arith
    | inr (entries, e) ↦ some_subdir_sound dir m entries (rw (e, has_newer_below) at h)
  ]

  not-le : (a b : ℕ) → ltb a b ≡ false → b ≤ a
  not-le a b h = ground arith

  not-false : (b : Bool) → not b ≡ false → b ≡ true
  not-false b h = ground arith

  class_newer :
      (dir name : Bytes) (m t : ℕ)
      → ends_with name (codes ".java") ≡ true
      → Files.mtime files (class_file_of dir name) ≡ some t
      → m ≤ t
      → HasNewer dir m
  unfolding class_file_of ends_with
  class_newer dir name m t q e l =
      (take (length name - 5) name, t, take-nonempty (length name - 5) name (ground arith), e, l)

  relative_sound :
      (relative dest : Bytes) (m : ℕ)
      → needs_relative files relative dest m ≡ false
      → HasNewer dest m
  unfolding needs_relative
  relative_sound relative dest m h =
      let name = base_name relative in
      let dir = dest ++ codes "/" ++ dir_name relative in
      elim (Bool-cases (streq name (codes "package-info.java"))) [
        | inl p ↦ elim (Bool-cases (has_newer_class_in_dir files dir m none)) [
          | inl e ↦ HasNewer-child dest (dir_name relative) m (HasNewer-sound dir m none e)
          | inr e ↦ HasNewer-child dest (dir_name relative) m (below_sound dir m (ground arith))
        ]
        | inr p ↦ elim (Bool-cases (ends_with name (codes ".java"))) [
          | inr q ↦ ground arith
          | inl q ↦ elim (Option-cases (Files.mtime files (class_file_of dir name))) [
            | inl e ↦
                HasNewer-child dest (dir_name relative) m
                  (HasNewer-sound dir m none (not-false _ (rw (p, q, e, needs_relative) at h)))
            | inr (t, e) ↦
                HasNewer-child dest (dir_name relative) m
                  (class_newer dir name m t q e (not-le t m (rw (p, q, e, needs_relative) at h)))
          ]
        ]
      ]

  -- A source is not compiled again only where there is a destination directory, the source can be
  -- examined, and some class file below the destination directory is at least as new as the source.
  pub needs_compilation_sound :
      (source_file src_dir : Bytes) (dest_dir : Option Bytes)
      → needs_compilation files source_file src_dir dest_dir ≡ false
      → (dest : Bytes) × (m : ℕ) × (dest_dir ≡ some dest)
        × (Files.mtime files source_file ≡ some m)
        × HasNewer dest m
  unfolding needs_compilation
  needs_compilation_sound source_file src_dir none h = cc
  needs_compilation_sound source_file src_dir (some dest) h =
      elim (Option-cases (Files.mtime files source_file)) [
        | inl e ↦ ground arith
        | inr (m, e) ↦ (dest, m, refl, e, relative_sound _ dest m (rw (e, needs_compilation) at h))
      ]
