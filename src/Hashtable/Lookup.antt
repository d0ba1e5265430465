-- ===== src/Hashtable/Lookup.antt =====
-- The operations of the hash table (src/util.c) without a resize: the invariant, and lookups
-- after them.
use gantt.Prelude.{
  ℕ, ◌<◌, ◌≡◌, Option, none, some, [], ◌∷◌, arith, length, if◌then◌else◌, inl, inr, Option-cases,
  sym, ◌∙◌, length-set,
}
use gantt.Text.{Bytes, streq, streq_iff}
use gantt.Hashtable.{
  Chain, Hashtable, index, bucket, lookup, update_entry, remove_entry, insert_at, remove_at,
}
use gantt.Hashtable.Chain.{
  update_entry-none, lookup_chain-update_entry, length-update_entry, remove_entry-none,
  lookup_chain-remove_entry, remove_entry-some,
}
use gantt.Hashtable.Invariant.{
  IsChain, IsValid, index-lt, lookup-push, push-IsSpread, total-push, length-push, IsSpread-set,
  total-set, lookup-set,
}

module _ {V : Type 0} where
  -- An update of a value in place moves no key.
  update_entry-IsChain :
      (size i : ℕ) (key : Bytes) (value : V) (chain : Chain V) {chain' : Chain V}
      → update_entry key value chain ≡ some chain'
      → IsChain size i chain
      → IsChain size i chain'
  unfolding update_entry
  update_entry-IsChain size i key value [] h c = cc
  update_entry-IsChain size i key value ((k, v) ∷ chain) {chain'} h ((e, p), (n, d)) =
      elim (Option-cases (update_entry key value chain)) [
        | inl r ↦ ground arith
        | inr (c, r) ↦ ground (
          arith,
          update_entry-IsChain size i key value chain r (p, d),
          lookup_chain-update_entry key k value chain r,
          streq_iff k key,
          streq_iff key k,
        )
      ]

  remove_entry-IsChain :
      (size i : ℕ) (key : Bytes) (chain : Chain V) {w : V} {chain' : Chain V}
      → remove_entry key chain ≡ some (w, chain')
      → IsChain size i chain
      → IsChain size i chain'
  unfolding remove_entry
  remove_entry-IsChain size i key [] h c = cc
  remove_entry-IsChain size i key ((k, v) ∷ chain) h ((e, p), (n, d)) =
      elim (Option-cases (remove_entry key chain)) [
        | inl r ↦ ground arith
        | inr ((x, c), r) ↦ ground (
          arith,
          remove_entry-IsChain size i key chain r (p, d),
          lookup_chain-remove_entry key k chain d r,
        )
      ]

  module _ (ht : Hashtable V) (key : Bytes) (valid : IsValid ht) where
    in_range : index ht.size key < length ht.buckets
    in_range = omega (arith, index-lt ht.size key valid.positive, valid.sized)

    here : IsChain ht.size (index ht.size key) (bucket ht.buckets (index ht.size key))
    here = valid.spread (index ht.size key) (index ht.size key) (omega arith)

    pub insert_at-IsValid :
        (value : V) (o : Option (Chain V))
        → update_entry key value (bucket ht.buckets (index ht.size key)) ≡ o
        → IsValid (insert_at ht key value o)
    unfolding insert_at
    insert_at-IsValid value none e = record {
      positive = valid.positive;
      sized = length-push ht.size ht.buckets key value ∙ valid.sized;
      counted = omega (arith, total-push ht.size ht.buckets key value in_range, valid.counted);
      spread =
          push-IsSpread ht.size ht.buckets key value in_range (update_entry-none key value _ e)
            valid.spread;
    }
    insert_at-IsValid value (some chain) e = record {
      positive = valid.positive;
      sized = length-set ht.buckets _ _ ∙ valid.sized;
      counted = omega (
        arith,
        total-set (index ht.size key) chain ht.buckets in_range,
        length-update_entry key value _ e,
        valid.counted,
      );
      spread =
          IsSpread-set ht.size _ chain ht.buckets in_range
            (update_entry-IsChain ht.size _ key value _ e here) valid.spread;
    }

    pub lookup-insert_at :
        (value : V) (j : Bytes) (o : Option (Chain V))
        → update_entry key value (bucket ht.buckets (index ht.size key)) ≡ o
        → lookup (insert_at ht key value o) j ≡ (if streq key j then some value else lookup ht j)
    unfolding insert_at lookup
    lookup-insert_at value j none e = lookup-push ht.size ht.buckets key j value in_range
    lookup-insert_at value j (some chain) e = ground (
      arith,
      lookup-set ht.size (index ht.size key) j chain ht.buckets in_range,
      lookup_chain-update_entry key j value _ e,
      streq_iff key j,
    )

    pub remove_at-IsValid :
        (o : Option (V × Chain V))
        → remove_entry key (bucket ht.buckets (index ht.size key)) ≡ o
        → IsValid (remove_at ht (index ht.size key) o).0
    unfolding remove_at
    remove_at-IsValid none e = valid
    remove_at-IsValid (some (w, chain)) e = record {
      positive = valid.positive;
      sized = length-set ht.buckets _ _ ∙ valid.sized;
      counted = omega (
        arith,
        total-set (index ht.size key) chain ht.buckets in_range,
        (remove_entry-some key _ e).1,
        valid.counted,
      );
      spread =
          IsSpread-set ht.size _ chain ht.buckets in_range
            (remove_entry-IsChain ht.size _ key _ e here) valid.spread;
    }

    pub lookup-remove_at :
        (j : Bytes) (o : Option (V × Chain V))
        → remove_entry key (bucket ht.buckets (index ht.size key)) ≡ o
        → lookup (remove_at ht (index ht.size key) o).0 j
          ≡ (if streq key j then none else lookup ht j)
    unfolding remove_at lookup
    lookup-remove_at j none e = ground (arith, remove_entry-none key _ e, streq_iff key j)
    lookup-remove_at j (some (w, chain)) e = ground (
      arith,
      lookup-set ht.size (index ht.size key) j chain ht.buckets in_range,
      lookup_chain-remove_entry key j _ here.1 e,
      streq_iff key j,
    )

    pub value-remove_at :
        (o : Option (V × Chain V))
        → remove_entry key (bucket ht.buckets (index ht.size key)) ≡ o
        → (remove_at ht (index ht.size key) o).1 ≡ lookup ht key
    unfolding remove_at lookup
    value-remove_at none e = sym (remove_entry-none key _ e)
    value-remove_at (some (w, chain)) e = sym (remove_entry-some key _ e).0
