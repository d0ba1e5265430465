-- ===== src/Ivy/Retrieve/Copies.antt =====
-- `copy_file_to` of src/ivy_resolve.c, and what it relies on.
use gantt.Prelude.{
  ℕ, zero, suc, ◌≡◌, refl, Bool, true, false, Option, none, some, [], ◌∷◌, inl, inr, Bool-cases,
  Option-cases, length, take, drop,
}
use gantt.Text.{Bytes}
use gantt.Ivy.Resolvers.{Outside, Warning, make_parent, parent_dir}
use gantt.Ivy.Retrieve.{Storage, block_size, copy_blocks, copy_created, copy_opened, copy_file_to}

-- Files and warnings that were there still are.
pub record Later (O : Outside) (Warned : Outside.World O → Warning → Type 0)
    (w w' : Outside.World O) : Type 0 where
  pub files :
      (path : Bytes) → Outside.file_exists O w path ≡ true → Outside.file_exists O w' path ≡ true
  pub warnings : (x : Warning) → Warned w x → Warned w' x

-- What the retrieval relies on: no operation loses a file or a warning, a file that was opened for
-- writing is there, and a warning that was given is there.
pub record IsStorage (O : Outside) (S : Storage O) (Warned : Outside.World O → Warning → Type 0)
    : Type 0 where
  pub mkdir_p : (w : Outside.World O) (dir : Bytes) → Later O Warned w (Outside.mkdir_p O w dir)
  pub create :
      (w : Outside.World O) (dest : Bytes) → Later O Warned w (Storage.create_file S w dest).1
  pub append :
      (w : Outside.World O) (dest block : Bytes)
      → Later O Warned w (Storage.append_file S w dest block).1
  pub log : (w : Outside.World O) (x : Warning) → Later O Warned w (Outside.task_log O w x)
  pub created :
      (w : Outside.World O) (dest : Bytes)
      → (Storage.create_file S w dest).0 ≡ true
      → Outside.file_exists O (Storage.create_file S w dest).1 dest ≡ true
  pub warned : (w : Outside.World O) (x : Warning) → Warned (Outside.task_log O w x) x

module _ (O : Outside) (S : Storage O) (Warned : Outside.World O → Warning → Type 0)
    (storage : IsStorage O S Warned) where
  pub Later-refl : (w : Outside.World O) → Later O Warned w w
  Later-refl w = record { files = λ path h. h; warnings = λ x h. h }

  pub Later-trans :
      (a b c : Outside.World O) → Later O Warned a b → Later O Warned b c → Later O Warned a c
  Later-trans a b c p q = record {
    files = λ path h. q.files path (p.files path h);
    warnings = λ x h. q.warnings x (p.warnings x h);
  }

  make_parent-Later :
      (w : Outside.World O) (dir : Option Bytes) → Later O Warned w (make_parent O w dir)
  unfolding make_parent
  make_parent-Later w none = Later-refl w
  make_parent-Later w (some []) = Later-refl w
  make_parent-Later w (some (c ∷ dir)) =
      elim (Bool-cases (Outside.file_is_directory O w (c ∷ dir))) [
        | inl e ↦ rw e (Later-refl w)
        | inr e ↦ rw e (storage.mkdir_p w (c ∷ dir))
      ]

  copy_blocks-Later :
      (fuel : ℕ) (dest content : Bytes) (w : Outside.World O)
      → Later O Warned w (copy_blocks O S fuel dest content w).1
  unfolding copy_blocks
  copy_blocks-Later zero dest content w = Later-refl w
  copy_blocks-Later (suc fuel) dest [] w = Later-refl w
  copy_blocks-Later (suc fuel) dest (b ∷ content) w =
      let block = take block_size (b ∷ content) in
      let w' = (Storage.append_file S w dest block).1 in
      elim (Bool-cases (Storage.append_file S w dest block).0) [
        | inl e ↦
            rw (e, copy_blocks)
              (Later-trans w w' _ (storage.append w dest block)
                (copy_blocks-Later fuel dest (drop block_size (b ∷ content)) w'))
        | inr e ↦ rw (e, copy_blocks) (storage.append w dest block)
      ]

  -- A copy that succeeds leaves its file.
  abbrev pub Copied : Outside.World O → Bytes → Bool × Outside.World O → Type 0
  Copied w dest r = Later O Warned w r.1 × (r.0 ≡ true → Outside.file_exists O r.1 dest ≡ true)

  copy_created-Copied :
      (content dest : Bytes) (w : Outside.World O) (r : Bool × Outside.World O)
      → Copied w dest r
      → Copied w dest (copy_created O S content dest r)
  unfolding copy_created
  copy_created-Copied content dest w (false, w') c = c
  copy_created-Copied content dest w (true, w') c =
      let later = copy_blocks-Later (length content) dest content w' in
      (Later-trans w w' _ c.0 later, λ ok. later.files dest (c.1 refl))

  pub copy_file_to-Copied :
      (w : Outside.World O) (source dest : Bytes) → Copied w dest (copy_file_to O S w source dest)
  unfolding copy_file_to copy_opened
  copy_file_to-Copied w source dest =
      let w' = make_parent O w (parent_dir dest) in
      let later = make_parent-Later w (parent_dir dest) in
      elim (Option-cases (Storage.read_file S w' source)) [
        | inl e ↦ rw (e, copy_opened) (later, λ ok. cc)
        | inr (content, e) ↦
            rw (e, copy_opened)
              (copy_created-Copied content dest w (Storage.create_file S w' dest)
                (Later-trans w w' _ later (storage.create w' dest), storage.created w' dest))
      ]
