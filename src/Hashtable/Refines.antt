-- ===== src/Hashtable/Refines.antt =====
-- The hash table (src/util.c) as a dictionary: each operation, and the instance of `Dict` for
-- the clients.
use gantt.Prelude.{
  ◌+◌, ◌*◌, ◌<◌, ◌≤◌, ◌≡◌, refl, true, false, Option, none, some, arith, if◌then◌else◌, Bool-cases,
  inl, inr,
}
use gantt.Text.{Bytes, streq}
use gantt.Dict.{Dict}
use gantt.Hashtable.{
  Chain, Hashtable, new, insert, insert_with_room, insert_at, is_full, resize, lookup, remove,
  contains, index, bucket, initial_size,
}
use gantt.Hashtable.Chain.{contains_chain-lookup_chain}
use gantt.Hashtable.Entries.{entries, entries_iff}
use gantt.Hashtable.Invariant.{IsValid}
use gantt.Hashtable.Resize.{lookup-resize, resize-IsValid, new-IsValid, lookup-new}
use gantt.Hashtable.Lookup.{
  insert_at-IsValid, lookup-insert_at, remove_at-IsValid, lookup-remove_at, value-remove_at,
}

module _ {V : Type 0} where
  with_room : Hashtable V → Hashtable V
  with_room ht = if is_full ht then resize ht (ht.size * 2) else ht

  with_room-IsValid : (ht : Hashtable V) → IsValid ht → IsValid (with_room ht)
  unfolding with_room
  with_room-IsValid ht v = elim (Bool-cases (is_full ht)) [
    | inl e ↦ rw e (resize-IsValid ht (ht.size * 2) v (omega (arith, v.positive)))
    | inr e ↦ rw e v
  ]

  lookup-with_room :
      (ht : Hashtable V) (j : Bytes) → IsValid ht → lookup (with_room ht) j ≡ lookup ht j
  unfolding with_room
  lookup-with_room ht j v = elim (Bool-cases (is_full ht)) [
    | inl e ↦ rw e (lookup-resize ht (ht.size * 2) j v (omega (arith, v.positive)))
    | inr e ↦ rw e
  ]

  -- Inserting keeps a well-formed table well formed, whether the key is new, is updated in place,
  -- or makes the table grow: each key in the bucket of its hash and once only, and an exact count.
  pub insert-IsValid :
      (ht : Hashtable V) (key : Bytes) (value : V) → IsValid ht → IsValid (insert ht key value)
  unfolding insert insert_with_room with_room
  insert-IsValid ht key value v =
      insert_at-IsValid (with_room ht) key (with_room-IsValid ht v) value _ refl

  -- In a well-formed table a lookup after an insertion finds the new value under that key, and under
  -- every other key what it found before, whether or not the table was resized on the way.
  pub lookup-insert :
      (ht : Hashtable V) (key j : Bytes) (value : V)
      → IsValid ht
      → lookup (insert ht key value) j ≡ (if streq key j then some value else lookup ht j)
  unfolding insert insert_with_room with_room
  lookup-insert ht key j value v = ground (
    arith,
    lookup-insert_at (with_room ht) key (with_room-IsValid ht v) value j _ refl,
    lookup-with_room ht j v,
  )

  -- Removing keeps a well-formed table well formed.
  pub remove-IsValid : (ht : Hashtable V) (key : Bytes) → IsValid ht → IsValid (remove ht key).0
  unfolding remove
  remove-IsValid ht key v = remove_at-IsValid ht key v _ refl

  -- In a well-formed table `remove` hands back what a lookup of the key found; a lookup after it
  -- finds nothing under that key, and under every other key what it found before.
  pub remove_lem :
      (ht : Hashtable V) (key j : Bytes)
      → IsValid ht
      → ((remove ht key).1 ≡ lookup ht key)
        × (lookup (remove ht key).0 j ≡ (if streq key j then none else lookup ht j))
  unfolding remove
  remove_lem ht key j v = (value-remove_at ht key v _ refl, lookup-remove_at ht key v j _ refl)

  -- At most three quarters full, but for the last entry.
  pub record IsLoose (ht : Hashtable V) : Type 0 where
    pub large : initial_size ≤ ht.size
    pub load : 4 * ht.count < 3 * ht.size + 4

  IsLoose-insert_at :
      (ht : Hashtable V) (key : Bytes) (value : V) (o : Option (Chain V))
      → initial_size ≤ ht.size
      → 4 * ht.count < 3 * ht.size
      → IsLoose (insert_at ht key value o)
  unfolding insert_at
  IsLoose-insert_at ht key value none h l = record { large = h; load = omega arith }
  IsLoose-insert_at ht key value (some chain) h l = record { large = h; load = omega arith }

  IsLoose-with_room :
      (ht : Hashtable V)
      → IsValid ht
      → IsLoose ht
      → (initial_size ≤ (with_room ht).size) × (4 * (with_room ht).count < 3 * (with_room ht).size)
  unfolding with_room is_full resize
  IsLoose-with_room ht v l = ground (arith, v.counted)

  -- An insertion keeps the load factor of a well-formed table below three quarters, but for the
  -- entry that it adds, and the table never has fewer than its initial buckets.
  pub insert-IsLoose :
      (ht : Hashtable V) (key : Bytes) (value : V)
      → IsValid ht
      → IsLoose ht
      → IsLoose (insert ht key value)
  unfolding insert insert_with_room with_room
  insert-IsLoose ht key value v l =
      let (large, room) = IsLoose-with_room ht v l in
      IsLoose-insert_at (with_room ht) key value _ large room

  -- `contains` answers whether a lookup would find something.
  pub contains-lookup :
      (ht : Hashtable V) (key : Bytes)
      → contains ht key ≡ elim (lookup ht key) [ none ↦ false | some _ ↦ true ]
  unfolding contains lookup
  contains-lookup ht key = contains_chain-lookup_chain key (bucket ht.buckets (index ht.size key))

-- The well-formed tables, with the operations of the source, are dictionaries.
abbrev pub hashtable_dict : (V : Type 0) → Dict V
hashtable_dict V = record {
  Table = (ht : Hashtable V) × IsValid ht;
  empty = (new, new-IsValid);
  lookup = λ t j. lookup t.0 j;
  insert = λ t k v. (insert t.0 k v, insert-IsValid t.0 k v t.1);
  remove = λ t k. ((remove t.0 k).0, remove-IsValid t.0 k t.1);
  entries = λ t. entries t.0;
  lookup-empty = lookup-new;
  lookup-insert = λ t k j v. lookup-insert t.0 k j v t.1;
  lookup-remove = λ t k j. (remove_lem t.0 k j t.1).1;
  lookup-entries = λ t k v. entries_iff t.0 k v t.1;
}
