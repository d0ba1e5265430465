-- ===== src/Dict.antt =====
-- What the clients of the hash table of src/util.c rely on: a table with string keys, its
-- operations, and their laws. `Hashtable.Refines` fills it.
use mathlib.Core.Option.{some-injective}
use gantt.Prelude.{
  ◌≡◌, refl, Option, none, some, false, if◌then◌else◌, Option-cases, Bool-cases, inl, inr, ◌⊎◌, ◌↔◌,
  List, In,
}
use gantt.Text.{Bytes, streq, streq_refl, streq_iff}

pub record Dict (V : Type 0) : Type 1 where
  pub Table : Type 0
  pub empty : Table
  pub lookup : Table → Bytes → Option V
  pub insert : Table → Bytes → V → Table
  pub remove : Table → Bytes → Table
  -- The entries, in the order in which `hashtable_foreach` meets them.
  pub entries : Table → List (Bytes × V)
  pub lookup-empty : (k : Bytes) → lookup empty k ≡ none
  pub lookup-insert :
      (t : Table) (k j : Bytes) (v : V)
      → lookup (insert t k v) j ≡ (if streq k j then some v else lookup t j)
  pub lookup-remove :
      (t : Table) (k j : Bytes) → lookup (remove t k) j ≡ (if streq k j then none else lookup t j)
  pub lookup-entries :
      (t : Table) (k : Bytes) (v : V) → In (k, v) (entries t) ↔ (lookup t k ≡ some v)

module _ {V : Type 0} (D : Dict V) where
  -- A write through the pointer to the value that a key has in the table.
  unfoldable pub update_at : Dict.Table D → Bytes → (V → V) → Dict.Table D
  update_at t k f = elim (Dict.lookup D t k) [ none ↦ t | some v ↦ Dict.insert D t k (f v) ]

  pub lookup-update_at_self :
      (t : Dict.Table D) (k : Bytes) (f : V → V) {v : V}
      → Dict.lookup D t k ≡ some v
      → Dict.lookup D (update_at t k f) k ≡ some (f v)
  unfolding update_at
  lookup-update_at_self t k f {v} h =
      rw (h, update_at) (rw (Dict.lookup-insert D t k k (f v), streq_refl k) refl)

  pub lookup-update_at_ne :
      (t : Dict.Table D) (k j : Bytes) (f : V → V)
      → streq k j ≡ false
      → Dict.lookup D (update_at t k f) j ≡ Dict.lookup D t j
  unfolding update_at
  lookup-update_at_ne t k j f h = elim (Option-cases (Dict.lookup D t k)) [
    | inl e ↦ rw (e, update_at) refl
    | inr (v, e) ↦ rw (e, update_at) (rw (Dict.lookup-insert D t k j (f v), h) refl)
  ]

  -- What is found after an insertion is what was inserted, or was found before.
  pub lookup-insert_inv :
      (t : Dict.Table D) (k j : Bytes) (v : V) {x : V}
      → Dict.lookup D (Dict.insert D t k v) j ≡ some x
      → ((k ≡ j) × (v ≡ x)) ⊎ ((streq k j ≡ false) × (Dict.lookup D t j ≡ some x))
  lookup-insert_inv t k j v h =
      let e = rw (Dict.lookup-insert D t k j v) at h in
      elim (Bool-cases (streq k j)) [
        | inl s ↦ inl ((streq_iff k j).0 s, some-injective _ _ (rw s at e))
        | inr s ↦ inr (s, rw s at e)
      ]

  -- What is found after a write is what was found before, or what was written over it.
  pub lookup-update_at_inv :
      (t : Dict.Table D) (k j : Bytes) (f : V → V) {x : V}
      → Dict.lookup D (update_at t k f) j ≡ some x
      → (v : V) × (Dict.lookup D t j ≡ some v) × ((v ≡ x) ⊎ (f v ≡ x))
  unfolding update_at
  lookup-update_at_inv t k j f {x} h = elim (Option-cases (Dict.lookup D t k)) [
    | inl e ↦ (x, rw (e, update_at) at h, inl refl)
    | inr (v, e) ↦ elim (lookup-insert_inv t k j (f v) (rw (e, update_at) at h)) [
      | inl (same, written) ↦ (v, rw (← same) e, inr written)
      | inr (_, old) ↦ (x, old, inl refl)
    ]
  ]
