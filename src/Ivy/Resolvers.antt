-- ===== src/Ivy/Resolvers.antt =====
-- The resolvers of src/ivy_resolve.c, with the structures of src/ivy.h: where a descriptor or an
-- artifact lies, its way into the cache, and the search through a chain of resolvers. What lies
-- outside is a parameter: the file system, the programs `mkdir` and `cp`, the `get` task, the
-- parsers of descriptors, and where warnings go.
pub mod Chains
use gantt.Prelude.{
  ℕ, Bool, true, false, ◌||◌, Option, none, some, List, [], ◌∷◌, ◌++◌, ◌==◌, if◌then◌else◌, drop,
}
use gantt.Text.{Bytes, codes, str_has_prefix}
use gantt.Match.{ends_in_slash}
use gantt.Ivy.Revision.{or_empty}
use gantt.Ivy.Pattern.{PatternTokens, pattern_substitute}
use gantt.Ivy.Confs.{IvyModuleId, IvyExclude}

-- `ivy_dependency_t`
pub record IvyDependency : Type 0 where
  pub id : IvyModuleId
  pub conf_mapping : Option Bytes
  pub transitive : Bool
  pub excludes : List IvyExclude

-- `ivy_license_t`
pub record IvyLicense : Type 0 where
  pub name : Option Bytes
  pub url : Option Bytes

-- `ivy_module_descriptor_t`, of which the resolution reads these; of a configuration it reads the
-- name only.
pub record ModuleDescriptor : Type 0 where
  pub id : IvyModuleId
  pub status : Option Bytes
  pub configurations : List Bytes
  pub dependencies : List IvyDependency
  pub licenses : List IvyLicense
  pub homepage : Option Bytes
  pub pubdate : Option Bytes

-- `ivy_resolver_t` of any kind but a chain. The parser of the settings gives each resolver the
-- patterns that are read.
pub record LeafResolver : Type 0 where
  pub name : Option Bytes
  pub root : Option Bytes
  pub m2compatible : Bool
  pub pattern : Bytes
  pub ivy_pattern : Bytes
  pub username : Option Bytes
  pub password : Option Bytes

-- A chain names resolvers that the settings declare before it, so it is a tree.
mutual
  pub data Resolver : Type 0 where
    leaf : LeafResolver → Resolver
    chain : Resolvers → Resolver

  pub data Resolvers : Type 0 where
    nil : Resolvers
    cons : Resolver → Resolvers → Resolvers

-- What `task_log` is told: warnings, errors and the result.
pub data Warning : Type 0 where
  cyclic_dependency : Bytes → Warning
  unable_to_resolve : IvyModuleId → Warning
  unable_to_fetch : IvyModuleId → Warning
  ivy_file_not_found : Bytes → Warning
  resolved : ℕ → Warning
  resolve_failed : Bytes → Warning
  unable_to_retrieve : Bytes → Bytes → Warning

-- What the resolution uses of the rest of the system.
pub record Outside : Type 1 where
  pub World : Type 0
  pub file_exists : World → Bytes → Bool
  pub file_is_directory : World → Bytes → Bool
  pub mkdir_p : World → Bytes → World
  pub cp : World → Bytes → Bytes → Bool × World
  pub get_invoke : World → Bytes → Bytes → Option Bytes → Option Bytes → Bool × World
  pub pom_parse_file : World → Bytes → IvyModuleId → Option ModuleDescriptor
  pub descriptor_parse_file : World → Bytes → Option ModuleDescriptor
  pub task_log : World → Warning → World

-- `ivy_pattern_substitute` on a pattern that is there.
unfoldable pub substitute : Bytes → PatternTokens → Bytes
substitute pattern tok = or_empty (pattern_substitute tok (some pattern))

-- `ivy_module_id_key`
unfoldable pub module_id_key : IvyModuleId → Bytes
module_id_key id = or_empty id.organisation ++ codes ":" ++ or_empty id.name

-- The key with the revision behind it.
unfoldable pub revision_key : Bytes → Option Bytes → Bytes
revision_key key2 revision = key2 ++ codes ":" ++ or_empty revision

unfoldable pub ivy_resolver_location : LeafResolver → Bytes → Bytes
ivy_resolver_location resolver rel_path = elim (or_empty resolver.root) [
  | [] ↦ rel_path
  | c ∷ root ↦
      if ends_in_slash (c ∷ root)
      then (c ∷ root) ++ rel_path
      else (c ∷ root) ++ codes "/" ++ rel_path
]

unfoldable pub build_cache_path : Bytes → IvyModuleId → Bytes → Bytes → Option Bytes → Bytes
build_cache_path cache_dir id subdir ext artifact_name =
    cache_dir
    ++ codes "/"
    ++ substitute
        (codes "[organisation]/[module]/" ++ subdir ++ codes "/[artifact]-[revision].[ext]")
        (record {
          organisation = id.organisation;
          module_name = id.name;
          revision = id.revision;
          artifact = artifact_name;
          artifact_type = none;
          ext = some ext;
          conf = none;
          classifier = none;
        })

-- What stands before the last separator.
unfoldable pub parent_dir : Bytes → Option Bytes
parent_dir [] = none
parent_dir (c ∷ path) = elim (parent_dir path) [
  | some dir ↦ some (c ∷ dir)
  | none ↦ if c == b'/' then some [] else none
]

-- What is looked for in the repository of a leaf.
unfoldable pub leaf_tokens : LeafResolver → IvyModuleId → PatternTokens
leaf_tokens resolver id = record {
  organisation = id.organisation;
  module_name = id.name;
  revision = id.revision;
  artifact = id.name;
  artifact_type = some (if resolver.m2compatible then codes "pom" else codes "ivy");
  ext = some (if resolver.m2compatible then codes "pom" else codes "xml");
  conf = none;
  classifier = none;
}

unfoldable pub descriptor_source : LeafResolver → IvyModuleId → Bytes
descriptor_source resolver id = ivy_resolver_location resolver (
    substitute (if resolver.m2compatible then resolver.pattern else resolver.ivy_pattern)
      (leaf_tokens resolver id))

unfoldable pub descriptor_cache_path : Bytes → LeafResolver → IvyModuleId → Bytes
descriptor_cache_path cache_dir resolver id =
    build_cache_path cache_dir id (if resolver.m2compatible then codes "poms" else codes "ivys")
      (if resolver.m2compatible then codes "pom" else codes "xml")
      (if resolver.m2compatible then id.name else some (codes "ivy"))

module _ (O : Outside) where
  -- The directory of the destination is made, whether or not that succeeds.
  unfoldable pub make_parent : Outside.World O → Option Bytes → Outside.World O
  make_parent w none = w
  make_parent w (some []) = w
  make_parent w (some (c ∷ dir)) =
      if Outside.file_is_directory O w (c ∷ dir) then w else Outside.mkdir_p O w (c ∷ dir)

  unfoldable pub copy_local : Outside.World O → Bytes → Bytes → Bool × Outside.World O
  copy_local w local cache_dest =
      if Outside.file_exists O w local then Outside.cp O w local cache_dest else (false, w)

  unfoldable pub fetch :
      Outside.World O → Bytes → Bytes → Option Bytes → Option Bytes → Bool × Outside.World O
  fetch w source cache_dest username password =
      if str_has_prefix source (codes "http://") || str_has_prefix source (codes "https://")
      then Outside.get_invoke O w source cache_dest username password
      else copy_local w (if str_has_prefix source (codes "file://") then drop 7 source else source)
          cache_dest

  -- `ivy_fetch_to_cache`: whether the file is in the cache, and `*out_fresh`, which is false at
  -- first.
  unfoldable pub ivy_fetch_to_cache :
      Outside.World O → Bytes → Bytes → Option Bytes → Option Bytes → Bool × Bool × Outside.World O
  ivy_fetch_to_cache w source cache_dest username password =
      if Outside.file_exists O w cache_dest
      then (true, false, w)
      else let fetched =
          fetch (make_parent w (parent_dir cache_dest)) source cache_dest username password in
        (fetched.0, fetched.0, fetched.1)

  -- The part of `resolver_find_module` for a resolver that is not a chain.
  unfoldable pub leaf_find_module :
      LeafResolver
      → IvyModuleId
      → Bytes
      → Outside.World O
      → Option ModuleDescriptor × Outside.World O
  leaf_find_module resolver id cache_dir w =
      let cache_dest = descriptor_cache_path cache_dir resolver id in
      let (ok, _, w') =
        ivy_fetch_to_cache w (descriptor_source resolver id) cache_dest resolver.username
          resolver.password in
      if ok
      then (
        if resolver.m2compatible
            then Outside.pom_parse_file O w' cache_dest id
            else Outside.descriptor_parse_file O w' cache_dest,
        w',
      )
      else (none, w')

  -- What was found and by which resolver.
  abbrev pub Found : Type 0
  Found = Option (ModuleDescriptor × LeafResolver) × Outside.World O

  unfoldable pub found_by : LeafResolver → Option ModuleDescriptor × Outside.World O → Found
  found_by resolver (none, w) = (none, w)
  found_by resolver (some md, w) = (some (md, resolver), w)

  -- The loop over a chain: the next one is asked if this one has found nothing.
  unfoldable pub or_next : Found → (Outside.World O → Found) → Found
  or_next (some hit, w) next = (some hit, w)
  or_next (none, w) next = next w

  module _ (id : IvyModuleId) (cache_dir : Bytes) where
    unfoldable mutual
      pub resolver_find_module : Resolver → Outside.World O → Found
      resolver_find_module (leaf resolver) w =
          found_by resolver (leaf_find_module resolver id cache_dir w)
      resolver_find_module (chain members) w = chain_find_module members w

      pub chain_find_module : Resolvers → Outside.World O → Found
      chain_find_module nil w = (none, w)
      chain_find_module (cons member members) w =
          or_next (resolver_find_module member w) (λ w'. chain_find_module members w')
