-- ===== src/Examples/Resolution.antt =====
-- The resolution of dependencies, path structures, the task for properties and `javac`.
use gantt.Prelude.{Bool, ◌≡◌, refl, true, Option, none, some, List, [], ◌∷◌, inl, inr, ap, sym, ◌∙◌}
use mathlib.Core.Option.{some-injective}
use mathlib.Core.Path.{subst}
use gantt.Text.{Bytes, codes}
use gantt.Hashtable.Refines.{hashtable_dict}
use gantt.Ivy.Confs.{IvyModuleId}
use gantt.Ivy.Resolvers.{
  ModuleDescriptor, LeafResolver, leaf, chain, nil, cons, Outside, Warning, Found, IvyDependency,
  found_by, leaf_find_module, ivy_fetch_to_cache, resolver_find_module, module_id_key,
}
use gantt.Ivy.Resolvers.Chains.{leaves, first_hit, resolver_find_module-first_hit}
use gantt.Ivy.Walk.{Walk, IvySettings, walk_roots, on_path}
use gantt.Ivy.Walk.Known.{Within, IsFinite}
use gantt.Ivy.Walk.Terminates.{walk_roots-Returns}
use gantt.Ivy.Walk.Winners.{IsConsistent, walk_roots-IsConsistent}
use gantt.Ivy.Walk.Fetched.{lookup_cached}
use gantt.Target.{is_some}
use gantt.Platform.{parse_boolean}
use gantt.Ivy.Task.{attribute_or, resolve_optional, discover_settings_file, ivy_resolve_invoke}
use gantt.Ivy.Task.Answers.{IsBounded, ivy_resolve_invoke_lem}
use gantt.Ivy.Resolve.{requested, new_walk, resolve_run}
use gantt.Ivy.Resolve.Reports.{Reported}
use gantt.Ivy.Resolve.Run.{Settled, resolve_run-Settled, new_walk-IsKnown, new_walk-IsConsistent}

abbrev lib_id : IvyModuleId
lib_id = record {
  organisation = some (codes "org");
  name = some (codes "lib");
  revision = some (codes "1.0");
}

-- A module that depends on itself.
abbrev on_itself : IvyDependency
on_itself = record { id = lib_id; conf_mapping = none; transitive = true; excludes = [] }

abbrev lib_descriptor : ModuleDescriptor
lib_descriptor = record {
  id = lib_id;
  status = some (codes "release");
  configurations = codes "default" ∷ [];
  dependencies = on_itself ∷ [];
  licenses = [];
  homepage = none;
  pubdate = none;
}

-- All files are there, and each descriptor is the one of the library.
abbrev outside : Outside
outside = record {
  World = List Warning;
  file_exists = λ w path. true;
  file_is_directory = λ w path. true;
  mkdir_p = λ w path. w;
  cp = λ w source dest. (true, w);
  get_invoke = λ w source dest username password. (true, w);
  pom_parse_file = λ w path id. some lib_descriptor;
  descriptor_parse_file = λ w path. some lib_descriptor;
  task_log = λ w warning. warning ∷ w;
}

abbrev repository : LeafResolver
repository = record {
  name = some (codes "main");
  root = some (codes "https://repo");
  m2compatible = true;
  pattern = codes "[organisation]/[module]-[revision].[ext]";
  ivy_pattern = codes "";
  username = none;
  password = none;
}

abbrev settings : IvySettings
settings = record { default_resolver = leaf repository; cache_dir = codes "cache" }

abbrev keys : List Bytes
keys = module_id_key lib_id ∷ []

abbrev confs : List Bytes
confs = codes "default" ∷ []

lib-Within : Within hashtable_dict outside settings confs keys (on_itself ∷ [])
lib-Within dep (inl e) = inl (ap (λ (d : IvyDependency). module_id_key d.id) e)
lib-Within dep (inr i) = absurd i

-- Whatever is looked for, the library is found.
abbrev descriptor_of : Found outside → Option ModuleDescriptor
descriptor_of (none, w) = none
descriptor_of (some (md, r), w) = some md

find-lib :
    (id : IvyModuleId) (w : List Warning)
    → descriptor_of (resolver_find_module outside id settings.cache_dir settings.default_resolver w)
      ≡ some lib_descriptor
unfolding resolver_find_module found_by leaf_find_module ivy_fetch_to_cache
find-lib id w = refl

lib-IsFinite : IsFinite hashtable_dict outside settings confs keys
lib-IsFinite id w w' md r h =
    let same = some-injective _ _ (sym (find-lib id w) ∙ ap descriptor_of h) in
    subst
      (λ (m : ModuleDescriptor). Within hashtable_dict outside settings confs keys m.dependencies)
      same lib-Within

resolver_find_module-first_hit_example :
    resolver_find_module outside lib_id
      (codes "cache")
      (chain (cons (leaf repository) (cons (chain nil) nil)))
      []
    ≡ first_hit outside lib_id
        (codes "cache")
        (leaves (chain (cons (leaf repository) (cons (chain nil) nil))))
        []
resolver_find_module-first_hit_example =
    resolver_find_module-first_hit outside lib_id (codes "cache")
      (chain (cons (leaf repository) (cons (chain nil) nil))) []

abbrev start : Walk hashtable_dict outside
start = new_walk hashtable_dict outside []

walk_roots-Returns_example :
    (ctx : Walk hashtable_dict outside) × (walk_roots hashtable_dict outside settings confs 2 lib_id
        (on_itself ∷ [])
        start
      ≡ some ctx)
    × ((k : Bytes) → on_path hashtable_dict outside ctx k ≡ on_path hashtable_dict outside start k)
walk_roots-Returns_example =
    walk_roots-Returns hashtable_dict outside settings confs keys lib_id (on_itself ∷ []) start
      lib-IsFinite lib-Within
      (new_walk-IsKnown hashtable_dict outside settings lib_descriptor none keys [])

resolve_run-Settled_example :
    (ctx : Walk hashtable_dict outside) × (resolve_run hashtable_dict outside 2 settings
        lib_descriptor none []
      ≡ some ctx)
    × ((key3 : Bytes) (entry : _)
        → lookup_cached hashtable_dict outside ctx key3 ≡ some entry
        → Reported hashtable_dict outside
            (Settled hashtable_dict outside settings.cache_dir)
            ctx
            key3
            entry)
resolve_run-Settled_example =
    resolve_run-Settled hashtable_dict outside settings lib_descriptor none keys [] lib-IsFinite
      lib-Within

walked :
    (ctx : Walk hashtable_dict outside) × (walk_roots hashtable_dict outside settings confs 2 lib_id
        (on_itself ∷ [])
        start
      ≡ some ctx)
walked =
    let (ctx, e, _) =
      walk_roots-Returns hashtable_dict outside settings confs keys lib_id (on_itself ∷ []) start
        lib-IsFinite lib-Within
        (new_walk-IsKnown hashtable_dict outside settings lib_descriptor none keys []) in
    (ctx, e)

walk_roots-IsConsistent_example : IsConsistent hashtable_dict outside walked.0
walk_roots-IsConsistent_example =
    walk_roots-IsConsistent hashtable_dict outside settings confs 2 lib_id (on_itself ∷ []) start
      walked.0 walked.1 (new_walk-IsConsistent hashtable_dict outside [])

abbrev load_settings : List Warning → Option Bytes → Option IvySettings
load_settings w settings_file = some settings

-- `<ivy:resolve/>`
abbrev no_attribute : Bytes → Option Bytes
no_attribute k = none

abbrev as_written : Bytes → Option Bytes
as_written text = some text

abbrev resolve_task : Option (Bool × List Warning)
resolve_task =
    ivy_resolve_invoke hashtable_dict outside (λ text. text) load_settings 2 as_written no_attribute
      []

default_settings :
    discover_settings_file hashtable_dict outside
      (λ text. text)
      load_settings
      2
      as_written
      no_attribute
      []
    ≡ some (some (codes "ivysettings.xml"))
unfolding discover_settings_file
default_settings = refl

default_file : as_written (attribute_or none (codes "ivy.xml")) ≡ some (codes "ivy.xml")
unfolding attribute_or
default_file = refl

no_conf : resolve_optional as_written none ≡ some none
unfolding resolve_optional
no_conf = refl

lib-IsBounded :
    IsBounded hashtable_dict outside
      (λ text. text)
      load_settings
      keys
      []
      (codes "ivy.xml")
      (some (codes "ivysettings.xml"))
      none
lib-IsBounded s md e d =
    subst
      (λ (t : IvySettings).
        IsFinite hashtable_dict outside t (requested none md.configurations) keys
        × Within hashtable_dict outside t (requested none md.configurations) keys md.dependencies)
      (some-injective _ _ e)
      (subst
        (λ (m : ModuleDescriptor).
          IsFinite hashtable_dict outside settings (requested none m.configurations) keys
          × Within hashtable_dict outside settings (requested none m.configurations) keys
              m.dependencies)
        (some-injective _ _ d) (lib-IsFinite, lib-Within))

ivy_resolve_invoke_lem_example : (w' : List Warning) × (resolve_task ≡ some (true, w'))
unfolding is_some parse_boolean
ivy_resolve_invoke_lem_example =
    ivy_resolve_invoke_lem hashtable_dict outside (λ text. text) load_settings keys as_written
      no_attribute (codes "ivy.xml") (some (codes "ivysettings.xml")) none [] default_file
      default_settings no_conf lib-IsBounded
