-- ===== src/Hashtable.antt =====
-- The hash table of src/util.c: an array of chains, doubled when three quarters full. Allocation
-- is taken to succeed, and tables and keys are not `NULL`; stored values are not `NULL` either, so
-- that a lookup of a stored key is `some`. `size` stays far below 2^63, since the buckets have
-- to fit in memory, so doubling it does not wrap.
pub mod Chain
pub mod Resize
pub mod Invariant
pub mod Lookup
pub mod Entries
pub mod Refines
use gantt.Prelude.{
  ℕ, ◌+◌, ◌-◌, ◌*◌, ◌%◌, ◌^◌, Bool, true, false, Option, none, some, List, [], ◌∷◌, leb, length,
  get_or, set, replicate, if◌then◌else◌,
}
use gantt.Text.{Bytes, streq}

-- `unsigned int` has 32 bits: the sum wraps.
unfoldable pub hash_loop : ℕ → Bytes → ℕ
hash_loop hash [] = hash
hash_loop hash (c ∷ str) = hash_loop ((hash * 31 + c) % 2 ^ 32) str

unfoldable pub str_hash : Bytes → ℕ
unfolding hash_loop
str_hash str = hash_loop 0 str

-- `hashtable_entry_t` behind its `next` pointers: the list of keys and values of one bucket.
abbrev pub Chain : Type 0 → Type 0
Chain V = List (Bytes × V)

pub record Hashtable (V : Type 0) : Type 0 where
  pub buckets : List (Chain V)
  pub size : ℕ
  pub count : ℕ

abbrev pub initial_size : ℕ
initial_size = 64

unfoldable pub index : ℕ → Bytes → ℕ
index size key = str_hash key % size

module _ {V : Type 0} where
  abbrev pub bucket : List (Chain V) → ℕ → Chain V
  bucket buckets i = get_or buckets i []

  unfoldable pub new : Hashtable V
  new = record { buckets = replicate initial_size []; size = initial_size; count = 0 }

  -- Put an entry at the head of the chain that its key selects.
  unfoldable pub push : ℕ → List (Chain V) → Bytes → V → List (Chain V)
  push size buckets k v = let i = index size k in set buckets i ((k, v) ∷ bucket buckets i)

  -- The inner loop of `hashtable_resize`, over one old chain. The `count++` of each round is added
  -- up by `resize`.
  unfoldable pub rehash_chain : ℕ → Chain V → List (Chain V) → List (Chain V)
  rehash_chain size [] buckets = buckets
  rehash_chain size ((k, v) ∷ chain) buckets = rehash_chain size chain (push size buckets k v)

  unfoldable pub rehash : ℕ → List (Chain V) → List (Chain V) → List (Chain V)
  rehash size [] buckets = buckets
  rehash size (chain ∷ old) buckets = rehash size old (rehash_chain size chain buckets)

  unfoldable pub total : List (Chain V) → ℕ
  total [] = 0
  total (chain ∷ rest) = length chain + total rest

  -- One `count++` for each entry that the two loops meet.
  unfoldable pub resize : Hashtable V → ℕ → Hashtable V
  resize ht new_size = record {
    buckets = rehash new_size ht.buckets (replicate new_size []);
    size = new_size;
    count = total ht.buckets;
  }

  -- The loop that looks for the key and updates its entry in place; `none` when it is not there.
  unfoldable pub update_entry : Bytes → V → Chain V → Option (Chain V)
  update_entry key value [] = none
  update_entry key value ((k, v) ∷ chain) =
      let rest = update_entry key value chain in
      if streq k key
      then some ((k, value) ∷ chain)
      else elim rest [ none ↦ none | some chain' ↦ some ((k, v) ∷ chain') ]

  -- `count / size >= 0.75`, without the division.
  unfoldable pub is_full : Hashtable V → Bool
  is_full ht = leb (3 * ht.size) (4 * ht.count)

  unfoldable pub insert_at : Hashtable V → Bytes → V → Option (Chain V) → Hashtable V
  insert_at ht key value (some chain) = record ht {
    buckets = set ht.buckets (index ht.size key) chain;
  }
  insert_at ht key value none = record ht {
    buckets = push ht.size ht.buckets key value;
    count = ht.count + 1;
  }

  unfoldable pub insert_with_room : Hashtable V → Bytes → V → Hashtable V
  insert_with_room ht key value =
      insert_at ht key value (update_entry key value (bucket ht.buckets (index ht.size key)))

  unfoldable pub insert : Hashtable V → Bytes → V → Hashtable V
  insert ht key value =
      insert_with_room (if is_full ht then resize ht (ht.size * 2) else ht) key value

  unfoldable pub lookup_chain : Bytes → Chain V → Option V
  lookup_chain key [] = none
  lookup_chain key ((k, v) ∷ chain) = if streq k key then some v else lookup_chain key chain

  unfoldable pub lookup : Hashtable V → Bytes → Option V
  lookup ht key = lookup_chain key (bucket ht.buckets (index ht.size key))

  -- The removed value and the chain without its entry.
  unfoldable pub remove_entry : Bytes → Chain V → Option (V × Chain V)
  remove_entry key [] = none
  remove_entry key ((k, v) ∷ chain) =
      let rest = remove_entry key chain in
      if streq k key
      then some (v, chain)
      else elim rest [ none ↦ none | some (w, chain') ↦ some (w, (k, v) ∷ chain') ]

  unfoldable pub remove_at : Hashtable V → ℕ → Option (V × Chain V) → Hashtable V × Option V
  remove_at ht i none = (ht, none)
  remove_at ht i (some (value, chain)) =
      (record ht { buckets = set ht.buckets i chain; count = ht.count - 1 }, some value)

  unfoldable pub remove : Hashtable V → Bytes → Hashtable V × Option V
  remove ht key =
      let i = index ht.size key in remove_at ht i (remove_entry key (bucket ht.buckets i))

  unfoldable pub contains_chain : Bytes → Chain V → Bool
  contains_chain key [] = false
  contains_chain key ((k, v) ∷ chain) = if streq k key then true else contains_chain key chain

  unfoldable pub contains : Hashtable V → Bytes → Bool
  contains ht key = contains_chain key (bucket ht.buckets (index ht.size key))

  -- `hashtable_foreach`: the callback over the chains in order, here as a step on the caller's data.
  unfoldable pub foreach_chain : {S : Type 0} → (Bytes → V → S → S) → Chain V → S → S
  foreach_chain fn [] s = s
  foreach_chain fn ((k, v) ∷ chain) s = foreach_chain fn chain (fn k v s)

  unfoldable pub foreach_buckets : {S : Type 0} → (Bytes → V → S → S) → List (Chain V) → S → S
  foreach_buckets fn [] s = s
  foreach_buckets fn (chain ∷ rest) s = foreach_buckets fn rest (foreach_chain fn chain s)

  unfoldable pub foreach : {S : Type 0} → Hashtable V → (Bytes → V → S → S) → S → S
  foreach ht fn s = foreach_buckets fn ht.buckets s
