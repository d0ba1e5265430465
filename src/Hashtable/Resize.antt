-- ===== src/Hashtable/Resize.antt =====
-- `hashtable_resize`: what the rehashed table holds.
use gantt.Prelude.{
  ℕ, zero, suc, ◌+◌, ◌<◌, ◌≡◌, refl, ◌≢◌, Option, none, some, List, [], ◌∷◌, arith, length, sym,
  get_or-replicate, length-replicate, replicate, ◌∙◌,
}
use gantt.Text.{Bytes, streq_iff}
use gantt.Hashtable.{
  Chain, Hashtable, index, bucket, push, total, lookup_chain, rehash_chain, rehash, resize, lookup,
  new, initial_size,
}
use gantt.Hashtable.Chain.{Distinct}
use gantt.Hashtable.Invariant.{
  IsSpread, IsValid, index-lt, lookup-push, push-IsSpread, total-push, length-push,
  lookup_chain-Placed,
}

total-replicate : (V : Type 0) (n : ℕ) → total {V = V} (replicate n []) ≡ 0
unfolding total
total-replicate V zero = refl
total-replicate V (suc n) = omega (arith, total-replicate V n)

module _ {V : Type 0} where
  abbrev pub or_else : Option V → Option V → Option V
  or_else none b = b
  or_else (some v) b = some v

  -- A lookup in the buckets of a table under construction.
  abbrev pub find : ℕ → List (Chain V) → Bytes → Option V
  find size buckets j = lookup_chain j (bucket buckets (index size j))

  -- Some chain of the old array has the key.
  pub find_any : Bytes → List (Chain V) → Option V
  find_any j [] = none
  find_any j (chain ∷ old) = or_else (find_any j old) (lookup_chain j chain)

  -- No key of the first table stands in the second.
  abbrev Fresh : (Bytes → Option V) → (Bytes → Option V) → Type 0
  Fresh f g = (j : Bytes) → f j ≢ none → g j ≡ none

  -- The new array while it is filled.
  record IsArray (size : ℕ) (buckets : List (Chain V)) : Type 0 where
    positive : 0 < size
    sized : length buckets ≡ size
    spread : IsSpread size 0 buckets

  push-IsArray :
      (size : ℕ) (buckets : List (Chain V)) (k : Bytes) (v : V)
      → IsArray size buckets
      → find size buckets k ≡ none
      → IsArray size (push size buckets k v)
  push-IsArray size buckets k v a fresh = record {
    positive = a.positive;
    sized = length-push size buckets k v ∙ a.sized;
    spread =
        push-IsSpread size buckets k v (omega (arith, index-lt size k a.positive, a.sized)) fresh
          a.spread;
  }

  rehash_chain-lookup :
      (size : ℕ) (chain : Chain V) (buckets : List (Chain V)) (j : Bytes)
      → 0 < size
      → length buckets ≡ size
      → Distinct chain
      → find size (rehash_chain size chain buckets) j
        ≡ or_else (lookup_chain j chain) (find size buckets j)
  unfolding rehash_chain lookup_chain
  rehash_chain-lookup size [] buckets j p l d = refl
  rehash_chain-lookup size ((k, v) ∷ chain) buckets j p l d = ground (
    arith,
    rehash_chain-lookup size chain (push size buckets k v) j p (length-push size buckets k v ∙ l)
        d.1,
    lookup-push size buckets k j v (omega (arith, index-lt size k p)),
    streq_iff k j,
  )

  rehash_chain-IsArray :
      (size : ℕ) (chain : Chain V) (buckets : List (Chain V))
      → Distinct chain
      → Fresh (λ j. lookup_chain j chain) (find size buckets)
      → IsArray size buckets
      → IsArray size (rehash_chain size chain buckets)
  unfolding rehash_chain lookup_chain
  rehash_chain-IsArray size [] buckets d f a = a
  rehash_chain-IsArray size ((k, v) ∷ chain) buckets d f a =
      rehash_chain-IsArray size chain (push size buckets k v) d.1
        (λ j n. ground (
          arith,
          lookup-push size buckets k j v (omega (arith, index-lt size k a.positive, a.sized)),
          streq_iff k j,
          f j,
        ))
        (push-IsArray size buckets k v a (ground (arith, f k, streq_iff k k)))

  rehash_chain-total :
      (size : ℕ) (chain : Chain V) (buckets : List (Chain V))
      → 0 < size
      → length buckets ≡ size
      → total (rehash_chain size chain buckets) ≡ length chain + total buckets
  unfolding rehash_chain
  rehash_chain-total size [] buckets p l = omega arith
  rehash_chain-total size ((k, v) ∷ chain) buckets p l = omega (
    arith,
    rehash_chain-total size chain (push size buckets k v) p (length-push size buckets k v ∙ l),
    total-push size buckets k v (omega (arith, index-lt size k p)),
  )

  length-rehash_chain :
      (size : ℕ) (chain : Chain V) (buckets : List (Chain V))
      → length (rehash_chain size chain buckets) ≡ length buckets
  unfolding rehash_chain
  length-rehash_chain size [] buckets = refl
  length-rehash_chain size ((k, v) ∷ chain) buckets =
      length-rehash_chain size chain (push size buckets k v) ∙ length-push size buckets k v

  IsSpread-tail :
      (size i : ℕ) (chain : Chain V) (old : List (Chain V))
      → IsSpread size i (chain ∷ old)
      → IsSpread size (suc i) old
  IsSpread-tail size i chain old s = λ m n e. s (suc m) n (omega arith)

  -- Behind the chains up to `i`, no key hashes to `i` or below.
  find_any-IsSpread-lt :
      (size i : ℕ) (old : List (Chain V)) (j : Bytes)
      → IsSpread size i old
      → index size j < i
      → find_any j old ≡ none
  unfolding find_any
  find_any-IsSpread-lt size i [] j s h = refl
  find_any-IsSpread-lt size i (chain ∷ old) j s h =
      rw (find_any-IsSpread-lt size (suc i) old j (IsSpread-tail size i chain old s) (omega arith))
        (lookup_chain-Placed size i j chain (s 0 i (omega arith)).0 (omega arith))

  -- In the old array, the bucket of the hash is the only place to look.
  pub find_any-IsSpread :
      (size i d : ℕ) (old : List (Chain V)) (j : Bytes)
      → IsSpread size i old
      → index size j ≡ i + d
      → find_any j old ≡ lookup_chain j (bucket old d)
  unfolding find_any lookup_chain
  find_any-IsSpread size i d [] j s h = refl
  find_any-IsSpread size i zero (chain ∷ old) j s h =
      rw (find_any-IsSpread-lt size (suc i) old j (IsSpread-tail size i chain old s) (omega arith))
  find_any-IsSpread size i (suc d) (chain ∷ old) j s h = ground (
    arith,
    find_any-IsSpread size (suc i) d old j (IsSpread-tail size i chain old s) (omega arith),
    lookup_chain-Placed size i j chain (s 0 i (omega arith)).0 (omega arith),
  )

  rehash-lookup :
      (size m i : ℕ) (old buckets : List (Chain V)) (j : Bytes)
      → 0 < size
      → length buckets ≡ size
      → IsSpread m i old
      → find size (rehash size old buckets) j ≡ or_else (find_any j old) (find size buckets j)
  unfolding rehash find_any
  rehash-lookup size m i [] buckets j p l s = refl
  rehash-lookup size m i (chain ∷ old) buckets j p l s = ground (
    arith,
    rehash-lookup size m (suc i) old (rehash_chain size chain buckets) j p
        (length-rehash_chain size chain buckets ∙ l) (IsSpread-tail m i chain old s),
    rehash_chain-lookup size chain buckets j p l (s 0 i (omega arith)).1,
  )

  rehash-IsArray :
      (size m i : ℕ) (old buckets : List (Chain V))
      → IsSpread m i old
      → Fresh (λ j. find_any j old) (find size buckets)
      → IsArray size buckets
      → IsArray size (rehash size old buckets)
  unfolding rehash find_any
  rehash-IsArray size m i [] buckets s f a = a
  rehash-IsArray size m i (chain ∷ old) buckets s f a =
      let (placed, distinct) = s 0 i (omega arith) in
      let tail = IsSpread-tail m i chain old s in
      rehash-IsArray size m (suc i) old (rehash_chain size chain buckets) tail
        (λ j n. ground (
          arith,
          rehash_chain-lookup size chain buckets j a.positive a.sized distinct,
          find_any-IsSpread-lt m (suc i) old j tail,
          lookup_chain-Placed m i j chain placed,
          f j,
        ))
        (rehash_chain-IsArray size chain buckets distinct (λ j n. ground (arith, f j)) a)

  rehash-total :
      (size : ℕ) (old buckets : List (Chain V))
      → 0 < size
      → length buckets ≡ size
      → total (rehash size old buckets) ≡ total old + total buckets
  unfolding rehash total
  rehash-total size [] buckets p l = omega arith
  rehash-total size (chain ∷ old) buckets p l = omega (
    arith,
    rehash-total size old (rehash_chain size chain buckets) p
        (length-rehash_chain size chain buckets ∙ l),
    rehash_chain-total size chain buckets p l,
  )

  replicate-IsArray : (size : ℕ) → 0 < size → IsArray size (replicate size [])
  replicate-IsArray size p = record {
    positive = p;
    sized = length-replicate size [];
    spread = λ m n e. rw (get_or-replicate {A = Chain V} size m []) (tt, tt);
  }

  find-replicate : (size n : ℕ) (j : Bytes) → find size (replicate n []) j ≡ none
  unfolding lookup_chain
  find-replicate size n j = rw (get_or-replicate {A = Chain V} n (index size j) [])

  pub lookup-resize :
      (ht : Hashtable V) (new_size : ℕ) (j : Bytes)
      → IsValid ht
      → 0 < new_size
      → lookup (resize ht new_size) j ≡ lookup ht j
  unfolding resize lookup
  lookup-resize ht new_size j v p = ground (
    arith,
    rehash-lookup new_size ht.size 0 ht.buckets (replicate new_size []) j p
        (length-replicate new_size []) v.spread,
    find-replicate new_size new_size j,
    find_any-IsSpread ht.size 0 (index ht.size j) ht.buckets j v.spread (omega arith),
  )

  pub resize-IsValid :
      (ht : Hashtable V) (new_size : ℕ) → IsValid ht → 0 < new_size → IsValid (resize ht new_size)
  unfolding resize
  resize-IsValid ht new_size v p =
      let a =
        rehash-IsArray new_size ht.size 0 ht.buckets (replicate new_size []) v.spread
          (λ j n. find-replicate new_size new_size j) (replicate-IsArray new_size p) in
      record {
        positive = p;
        sized = a.sized;
        counted = omega (
          arith,
          total-replicate V new_size,
          rehash-total new_size ht.buckets (replicate new_size []) p (length-replicate new_size []),
        );
        spread = a.spread;
      }

  pub new-IsValid : IsValid (new {V = V})
  unfolding new
  new-IsValid =
      let a = replicate-IsArray initial_size (omega arith) in
      record {
        positive = a.positive;
        sized = a.sized;
        counted = sym (total-replicate V initial_size);
        spread = a.spread;
      }

  pub lookup-new : (j : Bytes) → lookup (new {V = V}) j ≡ none
  unfolding lookup new
  lookup-new j = find-replicate initial_size initial_size j
