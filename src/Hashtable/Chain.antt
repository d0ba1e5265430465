-- ===== src/Hashtable/Chain.antt =====
-- One chain of the hash table: lookup after an update, a removal and a membership test.
use gantt.Prelude.{
  suc, ◌≡◌, refl, true, false, none, some, [], ◌∷◌, arith, length, if◌then◌else◌, inl, inr,
  Option-cases,
}
use gantt.Text.{Bytes, streq, streq_iff}
use gantt.Hashtable.{Chain, update_entry, lookup_chain, remove_entry, contains_chain}

module _ {V : Type 0} where
  -- No key stands twice in the chain.
  abbrev pub Distinct : Chain V → Type 0
  Distinct [] = Unit
  Distinct ((k, v) ∷ chain) = (lookup_chain k chain ≡ none) × Distinct chain

  pub update_entry-none :
      (key : Bytes) (value : V) (chain : Chain V)
      → update_entry key value chain ≡ none
      → lookup_chain key chain ≡ none
  unfolding update_entry lookup_chain
  update_entry-none key value [] h = refl
  update_entry-none key value ((k, v) ∷ chain) h = ground (arith, update_entry-none key value chain)

  pub lookup_chain-update_entry :
      (key j : Bytes) (value : V) (chain : Chain V) {chain' : Chain V}
      → update_entry key value chain ≡ some chain'
      → lookup_chain j chain' ≡ (if streq key j then some value else lookup_chain j chain)
  unfolding update_entry lookup_chain
  lookup_chain-update_entry key j value [] h = cc
  lookup_chain-update_entry key j value ((k, v) ∷ chain) h =
      elim (Option-cases (update_entry key value chain)) [
        | inl e ↦ ground (arith, streq_iff k key, streq_iff key j, streq_iff k j)
        | inr (c, e) ↦ ground (
          arith,
          streq_iff k key,
          streq_iff key j,
          streq_iff k j,
          lookup_chain-update_entry key j value chain e,
        )
      ]

  pub length-update_entry :
      (key : Bytes) (value : V) (chain : Chain V) {chain' : Chain V}
      → update_entry key value chain ≡ some chain'
      → length chain' ≡ length chain
  unfolding update_entry
  length-update_entry key value [] h = cc
  length-update_entry key value ((k, v) ∷ chain) h =
      elim (Option-cases (update_entry key value chain)) [
        | inl e ↦ ground arith
        | inr (c, e) ↦ ground (arith, length-update_entry key value chain e)
      ]

  pub remove_entry-none :
      (key : Bytes) (chain : Chain V)
      → remove_entry key chain ≡ none
      → lookup_chain key chain ≡ none
  unfolding remove_entry lookup_chain
  remove_entry-none key [] h = refl
  remove_entry-none key ((k, v) ∷ chain) h = ground (arith, remove_entry-none key chain)

  pub lookup_chain-remove_entry :
      (key j : Bytes) (chain : Chain V) {w : V} {chain' : Chain V}
      → Distinct chain
      → remove_entry key chain ≡ some (w, chain')
      → lookup_chain j chain' ≡ (if streq key j then none else lookup_chain j chain)
  unfolding remove_entry lookup_chain
  lookup_chain-remove_entry key j [] d h = cc
  lookup_chain-remove_entry key j ((k, v) ∷ chain) d h =
      elim (Option-cases (remove_entry key chain)) [
        | inl e ↦ ground (arith, streq_iff k key, streq_iff key j, streq_iff k j)
        | inr ((x, c), e) ↦ ground (
          arith,
          streq_iff k key,
          streq_iff key j,
          streq_iff k j,
          lookup_chain-remove_entry key j chain d.1 e,
        )
      ]

  pub remove_entry-some :
      (key : Bytes) (chain : Chain V) {w : V} {chain' : Chain V}
      → remove_entry key chain ≡ some (w, chain')
      → (lookup_chain key chain ≡ some w) × (length chain ≡ suc (length chain'))
  unfolding remove_entry lookup_chain
  remove_entry-some key [] h = cc
  remove_entry-some key ((k, v) ∷ chain) h = elim (Option-cases (remove_entry key chain)) [
    | inl e ↦ ground arith
    | inr ((x, c), e) ↦ ground (arith, remove_entry-some key chain e)
  ]

  pub contains_chain-lookup_chain :
      (key : Bytes) (chain : Chain V)
      → contains_chain key chain ≡ elim (lookup_chain key chain) [ none ↦ false | some _ ↦ true ]
  unfolding contains_chain lookup_chain
  contains_chain-lookup_chain key [] = refl
  contains_chain-lookup_chain key ((k, v) ∷ chain) =
      ground (arith, contains_chain-lookup_chain key chain)
