-- ===== src/Hashtable/Invariant.antt =====
-- What a well-formed table is (src/util.c): each key stands in the bucket of its hash and in no
-- chain twice, and `count` counts the entries.
use native.Mathlib.Decide.{ℕ_discrete}
use native.Mathlib.Nat.{mod-lt}
use gantt.Prelude.{
  ℕ, zero, suc, ◌+◌, ◌<◌, ◌≡◌, refl, ◌≢◌, none, some, List, [], ◌∷◌, arith, length, set,
  if◌then◌else◌, get_or-set_self, get_or-set_ne, length-set,
}
use gantt.Text.{Bytes, streq, streq_iff}
use mathlib.Core.Path.{subst}
use gantt.Prelude.{◌==◌}
use gantt.Hashtable.{str_hash, Chain, Hashtable, index, bucket, push, total, lookup_chain}
use gantt.Hashtable.Chain.{Distinct}

pub index-lt : (size : ℕ) (k : Bytes) → 0 < size → index size k < size
unfolding index
index-lt size k h = mod-lt (str_hash k) h

module _ {V : Type 0} where
  -- All keys of the chain hash to `i`.
  abbrev pub Placed : ℕ → ℕ → Chain V → Type 0
  Placed size i [] = Unit
  Placed size i ((k, v) ∷ chain) = (index size k ≡ i) × Placed size i chain

  abbrev pub IsChain : ℕ → ℕ → Chain V → Type 0
  IsChain size i chain = Placed size i chain × Distinct chain

  -- The chains from bucket `i` on.
  abbrev pub IsSpread : ℕ → ℕ → List (Chain V) → Type 0
  IsSpread size i buckets = (m n : ℕ) → i + m ≡ n → IsChain size n (bucket buckets m)

  pub record IsValid (ht : Hashtable V) : Type 0 where
    pub positive : 0 < ht.size
    pub sized : length ht.buckets ≡ ht.size
    pub counted : ht.count ≡ total ht.buckets
    pub spread : IsSpread ht.size 0 ht.buckets

  pub lookup_chain-Placed :
      (size i : ℕ) (j : Bytes) (chain : Chain V)
      → Placed size i chain
      → index size j ≢ i
      → lookup_chain j chain ≡ none
  unfolding lookup_chain
  lookup_chain-Placed size i j [] p n = refl
  lookup_chain-Placed size i j ((k, v) ∷ chain) p n =
      ground (arith, streq_iff k j, lookup_chain-Placed size i j chain p.1 n)

  pub IsSpread-set :
      (size i : ℕ) (chain : Chain V) (buckets : List (Chain V))
      → i < length buckets
      → IsChain size i chain
      → IsSpread size 0 buckets
      → IsSpread size 0 (set buckets i chain)
  IsSpread-set size i chain buckets h c s m n e = elim (ℕ_discrete i m) [
    | yes p ↦
        rw (← p, get_or-set_self buckets i chain [] h)
          (subst (λ x. IsChain size x chain) (omega arith) c)
    | no p ↦ rw (get_or-set_ne buckets i m chain [] p) (s m n e)
  ]

  pub total-set :
      (i : ℕ) (chain : Chain V) (buckets : List (Chain V))
      → i < length buckets
      → total (set buckets i chain) + length (bucket buckets i) ≡ total buckets + length chain
  unfolding total
  total-set i chain [] h = elim h [ ]
  total-set zero chain (c ∷ buckets) h = omega arith
  total-set (suc i) chain (c ∷ buckets) h = omega (arith, total-set i chain buckets (omega arith))

  pub lookup-set :
      (size i : ℕ) (j : Bytes) (chain : Chain V) (buckets : List (Chain V))
      → i < length buckets
      → lookup_chain j (bucket (set buckets i chain) (index size j)) ≡ (
          if i == index size j
          then lookup_chain j chain
          else lookup_chain j (bucket buckets (index size j)))
  lookup-set size i j chain buckets h = elim (ℕ_discrete i (index size j)) [
    | yes p ↦ rw (← p, get_or-set_self buckets i chain [] h) (ground arith)
    | no p ↦ rw (get_or-set_ne buckets i (index size j) chain [] p) (ground arith)
  ]

  -- What a lookup finds after a `push`.
  pub lookup-push :
      (size : ℕ) (buckets : List (Chain V)) (k j : Bytes) (v : V)
      → index size k < length buckets
      → lookup_chain j (bucket (push size buckets k v) (index size j))
        ≡ (if streq k j then some v else lookup_chain j (bucket buckets (index size j)))
  unfolding push lookup_chain
  lookup-push size buckets k j v h =
      rw (lookup-set size (index size k) j _ buckets h) (ground (arith, streq_iff k j))

  pub push-IsSpread :
      (size : ℕ) (buckets : List (Chain V)) (k : Bytes) (v : V)
      → index size k < length buckets
      → lookup_chain k (bucket buckets (index size k)) ≡ none
      → IsSpread size 0 buckets
      → IsSpread size 0 (push size buckets k v)
  unfolding push
  push-IsSpread size buckets k v h fresh s =
      let (p, d) = s (index size k) (index size k) (omega arith) in
      IsSpread-set size (index size k) _ buckets h ((refl, p), (fresh, d)) s

  pub total-push :
      (size : ℕ) (buckets : List (Chain V)) (k : Bytes) (v : V)
      → index size k < length buckets
      → total (push size buckets k v) ≡ suc (total buckets)
  unfolding push
  total-push size buckets k v h =
      omega (arith, total-set (index size k) ((k, v) ∷ bucket buckets (index size k)) buckets h)

  pub length-push :
      (size : ℕ) (buckets : List (Chain V)) (k : Bytes) (v : V)
      → length (push size buckets k v) ≡ length buckets
  unfolding push
  length-push size buckets k v = length-set buckets _ _
