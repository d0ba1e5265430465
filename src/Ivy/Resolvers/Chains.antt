-- ===== src/Ivy/Resolvers/Chains.antt =====
-- Chains of resolvers (src/ivy_resolve.c) against the sequence of their members.
use gantt.Prelude.{◌≡◌, refl, none, some, List, [], ◌∷◌, ◌++◌}
use gantt.Text.{Bytes}
use gantt.Ivy.Confs.{IvyModuleId}
use gantt.Ivy.Resolvers.{
  LeafResolver, Resolver, leaf, chain, Resolvers, nil, cons, Outside, Found, found_by, or_next,
  leaf_find_module, resolver_find_module, chain_find_module,
}

-- The resolvers that are no chains, in the order in which a chain lists them.
unfoldable mutual
  pub leaves : Resolver → List LeafResolver
  leaves (leaf resolver) = resolver ∷ []
  leaves (chain members) = all_leaves members

  pub all_leaves : Resolvers → List LeafResolver
  all_leaves nil = []
  all_leaves (cons member members) = leaves member ++ all_leaves members

module _ (O : Outside) (id : IvyModuleId) (cache_dir : Bytes) where
  -- Ask one resolver after the other, until one has the module.
  pub first_hit : List LeafResolver → Outside.World O → Found O
  first_hit [] w = (none, w)
  first_hit (resolver ∷ rest) w =
      or_next O (found_by O resolver (leaf_find_module O resolver id cache_dir w))
        (λ w'. first_hit rest w')

  or_next-nothing : (f : Found O) → or_next O f (λ w. (none, w)) ≡ f
  unfolding or_next
  or_next-nothing (none, w) = refl
  or_next-nothing (some hit, w) = refl

  or_next_assoc :
      (f : Found O) (g h : Outside.World O → Found O)
      → or_next O (or_next O f g) h ≡ or_next O f (λ w. or_next O (g w) h)
  unfolding or_next
  or_next_assoc (none, w) g h = refl
  or_next_assoc (some hit, w) g h = refl

  first_hit-append :
      (a b : List LeafResolver) (w : Outside.World O)
      → first_hit (a ++ b) w ≡ or_next O (first_hit a w) (λ w'. first_hit b w')
  unfolding first_hit or_next
  first_hit-append [] b w = refl
  first_hit-append (r ∷ a) b w = simp (or_next_assoc, first_hit-append a b)

  mutual
    unfolding resolver_find_module chain_find_module leaves all_leaves first_hit

    find-first :
        (r : Resolver) (w : Outside.World O)
        → resolver_find_module O id cache_dir r w ≡ first_hit (leaves r) w
    find-first (leaf resolver) w = simp or_next-nothing
    find-first (chain members) w = find_all-first members w

    find_all-first :
        (r : Resolvers) (w : Outside.World O)
        → chain_find_module O id cache_dir r w ≡ first_hit (all_leaves r) w
    find_all-first nil w = refl
    find_all-first (cons member members) w =
        simp (first_hit-append, find-first member, find_all-first members)

  -- However chains are nested, a search asks their plain members in the order in which they are
  -- listed, each after the effects of those before it, and ends with the first that has the module.
  pub resolver_find_module-first_hit :
      (r : Resolver) (w : Outside.World O)
      → resolver_find_module O id cache_dir r w ≡ first_hit (leaves r) w
  resolver_find_module-first_hit r w = find-first r w
