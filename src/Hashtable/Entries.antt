-- ===== src/Hashtable/Entries.antt =====
-- The entries of a hash table (src/util.c) in the order of `hashtable_foreach`.
use gantt.Prelude.{
  ℕ, zero, suc, ◌≡◌, refl, ◌↔◌, some, List, [], ◌∷◌, ◌++◌, arith, In, In-append_lhs, In-append_rhs,
  In-append, inl, inr, Bool-cases, ap,
}
use gantt.Text.{Bytes, streq, streq_iff, streq_refl}
use gantt.Hashtable.{
  Chain, Hashtable, index, bucket, lookup_chain, lookup, foreach, foreach_chain, foreach_buckets,
}
use gantt.Hashtable.Chain.{Distinct}
use gantt.Hashtable.Invariant.{IsValid, Placed}

module _ {V : Type 0} where
  unfoldable pub all_entries : List (Chain V) → List (Bytes × V)
  all_entries [] = []
  all_entries (chain ∷ rest) = chain ++ all_entries rest

  unfoldable pub entries : Hashtable V → List (Bytes × V)
  entries ht = all_entries ht.buckets

  -- A step on the caller's data for each entry of a list.
  pub for_each : {S : Type 0} → (Bytes → V → S → S) → List (Bytes × V) → S → S
  for_each fn [] s = s
  for_each fn ((k, v) ∷ rest) s = for_each fn rest (fn k v s)

  for_each-append :
      {S : Type 0} (fn : Bytes → V → S → S) (a : Chain V) (b : List (Bytes × V)) (s : S)
      → for_each fn (a ++ b) s ≡ for_each fn b (foreach_chain fn a s)
  unfolding for_each foreach_chain
  for_each-append fn [] b s = refl
  for_each-append fn ((k, v) ∷ a) b s = for_each-append fn a b (fn k v s)

  foreach_buckets-entries :
      {S : Type 0} (fn : Bytes → V → S → S) (buckets : List (Chain V)) (s : S)
      → foreach_buckets fn buckets s ≡ for_each fn (all_entries buckets) s
  unfolding foreach_buckets all_entries for_each
  foreach_buckets-entries fn [] s = refl
  foreach_buckets-entries fn (chain ∷ rest) s =
      rw (for_each-append fn chain (all_entries rest) s)
        (foreach_buckets-entries fn rest (foreach_chain fn chain s))

  -- The callback is called for the entries one after the other.
  pub foreach-entries :
      {S : Type 0} (ht : Hashtable V) (fn : Bytes → V → S → S) (s : S)
      → foreach ht fn s ≡ for_each fn (entries ht) s
  unfolding foreach entries
  foreach-entries ht fn s = foreach_buckets-entries fn ht.buckets s

  lookup_chain-In :
      (k : Bytes) (v : V) (chain : Chain V) → lookup_chain k chain ≡ some v → In (k, v) chain
  unfolding lookup_chain
  lookup_chain-In k v [] h = cc
  lookup_chain-In k v ((j, w) ∷ chain) h = elim (Bool-cases (streq j k)) [
    | inl s ↦ inl (ground (arith, streq_iff j k))
    | inr s ↦ inr (lookup_chain-In k v chain (rw s at h))
  ]

  In-lookup_chain :
      (k : Bytes) (v : V) (chain : Chain V)
      → Distinct chain
      → In (k, v) chain
      → lookup_chain k chain ≡ some v
  unfolding lookup_chain
  In-lookup_chain k v [] d i = absurd i
  In-lookup_chain k v ((j, w) ∷ chain) d (inl e) = ground (arith, streq_refl k)
  In-lookup_chain k v ((j, w) ∷ chain) d (inr i) =
      ground (arith, streq_iff j k, In-lookup_chain k v chain d.1 i)

  In-Placed :
      (size i : ℕ) (k : Bytes) (v : V) (chain : Chain V)
      → Placed size i chain
      → In (k, v) chain
      → index size k ≡ i
  In-Placed size i k v [] p h = absurd h
  In-Placed size i k v ((j, w) ∷ chain) p (inl e) =
      ground (arith, ap (λ (q : Bytes × V). index size q.0) e)
  In-Placed size i k v ((j, w) ∷ chain) p (inr h) = In-Placed size i k v chain p.1 h

  In-bucket :
      (kv : Bytes × V) (buckets : List (Chain V))
      → In kv (all_entries buckets)
      → (m : ℕ) × In kv (bucket buckets m)
  unfolding all_entries
  In-bucket kv [] h = absurd h
  In-bucket kv (chain ∷ rest) h = elim (In-append kv chain (all_entries rest) h) [
    | inl i ↦ (0, i)
    | inr i ↦ let (m, j) = In-bucket kv rest i in (suc m, j)
  ]

  bucket-In :
      (kv : Bytes × V) (buckets : List (Chain V)) (m : ℕ)
      → In kv (bucket buckets m)
      → In kv (all_entries buckets)
  unfolding all_entries
  bucket-In kv [] m h = absurd h
  bucket-In kv (chain ∷ rest) zero h = In-append_lhs kv chain (all_entries rest) h
  bucket-In kv (chain ∷ rest) (suc m) h =
      In-append_rhs kv chain (all_entries rest) (bucket-In kv rest m h)

  -- The entries of a well-formed table are the keys with what a lookup finds for them.
  pub entries_iff :
      (ht : Hashtable V) (k : Bytes) (v : V)
      → IsValid ht
      → In (k, v) (entries ht) ↔ (lookup ht k ≡ some v)
  unfolding entries lookup
  entries_iff ht k v valid = (
    λ i.
        let (m, j) = In-bucket (k, v) ht.buckets i in
        let (p, d) = valid.spread m m (omega arith) in
        rw (In-Placed ht.size m k v (bucket ht.buckets m) p j) (In-lookup_chain k v _ d j),
    λ h. bucket-In (k, v) ht.buckets (index ht.size k) (lookup_chain-In k v _ h),
  )
