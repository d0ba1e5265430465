-- ===== src/Properties/Task.antt =====
-- What `property_invoke` (src/property.c) does to the properties.
use mathlib.Core.Path.{subst}
use mathlib.Core.Option.{some-injective}
use gantt.Prelude.{
  ℕ, ◌≡◌, refl, ◌∙◌, sym, Bool, true, false, Option, none, some, List, [], ◌∷◌, arith, Option-cases,
  Bool-cases, inl, inr, List-cases, true-ne-false,
}
use gantt.Text.{Bytes, codes, streq, streq_refl, streq_iff, str_split, str_strip}
use gantt.Dict.{Dict}
use gantt.Target.{is_some}
use gantt.Paths.{PathList}
use gantt.Properties.{set_entry, property_read, property_parse_string, maybe_append_dot}
use gantt.Properties.Immutable.{set_property_if_unset_lem, property_read-lookup, or_else}
use gantt.Properties.Invoke.{
  Sources, variable_entry, read_environ, resource_in, search_resource, property_read_resource,
  set_value, set_reference, define_property, read_resource, read_file, load_properties,
  property_invoke,
}

or_else-some : (o other : Option Bytes) {v : Bytes} → o ≡ some v → or_else o other ≡ some v
or_else-some o other h = rw h refl

module _ (D : Dict Bytes) (sources : Sources) where
  -- Every property that is set keeps its value.
  abbrev pub Keeps : Dict.Table D → Dict.Table D → Type 0
  Keeps t t' = (j v : Bytes) → Dict.lookup D t j ≡ some v → Dict.lookup D t' j ≡ some v

  set_entry-Keeps :
      (entry : Option (Bytes × Bytes)) (t : Dict.Table D) → Keeps t (set_entry D t entry)
  unfolding set_entry
  set_entry-Keeps none t j v h = h
  set_entry-Keeps (some (name, value)) t j v h =
      (set_property_if_unset_lem D t name value j).1 ∙ or_else-some _ _ h

  read_environ-Keeps :
      (env_prefix : Bytes) (env : List Bytes) (t : Dict.Table D)
      → Keeps t (read_environ D sources env_prefix env t)
  unfolding read_environ
  read_environ-Keeps env_prefix [] t j v h = h
  read_environ-Keeps env_prefix (variable ∷ env) t j v h =
      read_environ-Keeps env_prefix env _ j v
        (set_entry-Keeps (variable_entry env_prefix variable) t j v h)

  property_read-Keeps :
      (t : Dict.Table D) (contents prefix : Option Bytes)
      → Keeps t (property_read D t contents prefix).1
  property_read-Keeps t contents prefix j v h =
      property_read-lookup D t contents prefix j ∙ or_else-some _ _ h

  parse-Keeps :
      (t : Dict.Table D) (contents : Bytes) (prefix : Option Bytes)
      → Keeps t (property_parse_string D t contents prefix)
  parse-Keeps t contents prefix =
      unfold property_read in property_read-Keeps t (some contents) prefix

  search_resource-Keeps :
      (resource : Bytes) (prefix : Option Bytes) (paths : List Bytes) (t : Dict.Table D)
      → Keeps t (search_resource D sources resource prefix paths t).1
  unfolding search_resource
  search_resource-Keeps resource prefix [] t j v h = h
  search_resource-Keeps resource prefix (path ∷ paths) t j v h =
      elim (List-cases (str_strip path)) [
        | inl e ↦ rw (e, search_resource) (search_resource-Keeps resource prefix paths t j v h)
        | inr (c, text, e) ↦ elim (Option-cases (resource_in D sources resource (c ∷ text))) [
          | inl n ↦ rw (e, n, search_resource) (search_resource-Keeps resource prefix paths t j v h)
          | inr (contents, n) ↦ rw (e, n, search_resource) (parse-Keeps t contents prefix j v h)
        ]
      ]

  resource-Keeps :
      (resource : Bytes) (classpath prefix : Option Bytes) (t : Dict.Table D)
      → Keeps t (property_read_resource D sources resource classpath prefix t).1
  unfolding property_read_resource
  resource-Keeps resource none prefix t j v h = h
  resource-Keeps resource (some []) prefix t j v h = h
  resource-Keeps resource (some (c ∷ classpath)) prefix t j v h =
      elim (Option-cases (str_split (c ∷ classpath) (codes ":") 0)) [
        | inl e ↦ rw (e, property_read_resource) h
        | inr (paths, e) ↦
            rw (e, property_read_resource) (search_resource-Keeps resource prefix paths t j v h)
      ]

  insert-Keeps :
      (name value : Bytes) (t : Dict.Table D)
      → is_some (Dict.lookup D t name) ≡ false
      → Keeps t (Dict.insert D t name value)
  unfolding is_some
  insert-Keeps name value t n j v h =
      ground (arith, Dict.lookup-insert D t name j value, streq_iff name j)

  -- A task that comes back with a table.
  abbrev pub Comes : Option (Bool × Dict.Table D) → Bool → Dict.Table D → Type 0
  Comes o ok t' = o ≡ some (ok, t')

  module _ {Fileset : Type 0} (P : Dict (PathList Fileset)) (path_dict : Dict.Table P)
      (resolve_fileset : Fileset → List Bytes) (fuel : ℕ) (expand : Bytes → Bytes)
      (attribute : Bytes → Option Bytes) where
    -- What defining a property with a name does.
    record Defines (name : Bytes) (t t' : Dict.Table D) (ok : Bool) : Type 0 where
      answers : ok ≡ is_some (Dict.lookup D t' name)
      elsewhere : (j : Bytes) → streq name j ≡ false → Dict.lookup D t' j ≡ Dict.lookup D t j
      keeps : Keeps t t'
      failure : ok ≡ false → t' ≡ t

    unset-Defines :
        (name : Bytes) (t : Dict.Table D)
        → is_some (Dict.lookup D t name) ≡ false
        → Defines name t t false
    unset-Defines name t n = record {
      answers = sym n;
      elsewhere = λ j e. refl;
      keeps = λ j v h. h;
      failure = λ _. refl;
    }

    insert-Defines :
        (name value : Bytes) (t : Dict.Table D)
        → is_some (Dict.lookup D t name) ≡ false
        → Defines name t (Dict.insert D t name value) true
    unfolding is_some
    insert-Defines name value t n = record {
      answers = ground (arith, Dict.lookup-insert D t name name value, streq_refl name);
      elsewhere = λ j e. ground (arith, Dict.lookup-insert D t name j value);
      keeps = insert-Keeps name value t n;
      failure = λ e. absurd (true-ne-false e);
    }

    Defines-of :
        (name : Bytes) (t t' t'' : Dict.Table D) (ok ok' : Bool)
        → Defines name t t' ok
        → ◌≡◌ {A = Option (Bool × Dict.Table D)} (some (ok, t')) (some (ok', t''))
        → Defines name t t'' ok'
    Defines-of name t t' t'' ok ok' d e =
        subst (λ (p : Bool × Dict.Table D). Defines name t p.1 p.0) (some-injective _ _ e) d

    set_value-Defines :
        (name : Bytes) (value : Option Bytes) (t t' : Dict.Table D) (ok : Bool)
        → is_some (Dict.lookup D t name) ≡ false
        → set_value D sources P path_dict resolve_fileset fuel expand attribute name value t
          ≡ some (ok, t')
        → Defines name t t' ok
    unfolding set_value
    set_value-Defines name none t t' ok n h = cc
    set_value-Defines name (some value) t t' ok n h =
        Defines-of name t _ t' true ok (insert-Defines name value t n) h

    set_reference-Defines :
        (name : Bytes) (value : Option (Option Bytes)) (t t' : Dict.Table D) (ok : Bool)
        → is_some (Dict.lookup D t name) ≡ false
        → set_reference D sources P path_dict resolve_fileset fuel expand attribute name value t
          ≡ some (ok, t')
        → Defines name t t' ok
    unfolding set_reference
    set_reference-Defines name none t t' ok n h = cc
    set_reference-Defines name (some none) t t' ok n h =
        Defines-of name t t t' false ok (unset-Defines name t n) h
    set_reference-Defines name (some (some value)) t t' ok n h =
        Defines-of name t _ t' true ok (insert-Defines name value t n) h

    define_property-Defines :
        (name : Bytes) (t t' : Dict.Table D) (ok : Bool)
        → define_property D sources P path_dict resolve_fileset fuel expand attribute name t
          ≡ some (ok, t')
        → Defines name t t' ok
    unfolding define_property
    define_property-Defines name t t' ok h = elim (Bool-cases (is_some (Dict.lookup D t name))) [
      | inl e ↦
          Defines-of name t t t' true ok
            (record {
              answers = sym e;
              elsewhere = λ j _. refl;
              keeps = λ j v i. i;
              failure = λ f. refl;
            })
            (rw (e, define_property) at h)
      | inr e ↦ elim (Option-cases (attribute (codes "value"))) [
        | inr (value, a) ↦ set_value-Defines name _ t t' ok e (rw (e, a, define_property) at h)
        | inl a ↦ elim (Option-cases (attribute (codes "location"))) [
          | inr (value, b) ↦ set_value-Defines name _ t t' ok e (rw (e, a, b, define_property) at h)
          | inl b ↦ elim (Option-cases (attribute (codes "refid"))) [
            | inr (value, c) ↦
                set_reference-Defines name _ t t' ok e (rw (e, a, b, c, define_property) at h)
            | inl c ↦
                Defines-of name t t t' false ok (unset-Defines name t e)
                  (rw (e, a, b, c, define_property) at h)
          ]
        ]
      ]
    ]

    if_some-Keeps :
        (r : Bool × Dict.Table D) (t t' : Dict.Table D) (ok : Bool)
        → Keeps t r.1
        → some r ≡ some (ok, t')
        → Keeps t t'
    if_some-Keeps r t t' ok k e =
        subst (λ (p : Bool × Dict.Table D). Keeps t p.1) (some-injective _ _ e) k

    file-Keeps :
        (src prefix : Option Bytes) (t t' : Dict.Table D) (ok : Bool)
        → read_file D sources P path_dict resolve_fileset fuel expand attribute src prefix t
          ≡ some (ok, t')
        → Keeps t t'
    unfolding read_file
    file-Keeps none prefix t t' ok h = cc
    file-Keeps (some src) prefix t t' ok h =
        if_some-Keeps _ t t' ok
          (property_read-Keeps t (Sources.file_get_contents sources src) prefix) h

    read_resource-Keeps :
        (classpath : Option (Option Bytes)) (src prefix : Option Bytes) (t t' : Dict.Table D)
        (ok : Bool)
        → read_resource D sources P path_dict resolve_fileset fuel expand attribute classpath src
            prefix t
          ≡ some (ok, t')
        → Keeps t t'
    unfolding read_resource
    read_resource-Keeps none src prefix t t' ok h = cc
    read_resource-Keeps (some classpath) none prefix t t' ok h = cc
    read_resource-Keeps (some classpath) (some src) prefix t t' ok h =
        if_some-Keeps _ t t' ok (resource-Keeps src classpath prefix t) h

    load-Keeps :
        (prefix : Option Bytes) (t t' : Dict.Table D) (ok : Bool)
        → load_properties D sources P path_dict resolve_fileset fuel expand attribute prefix t
          ≡ some (ok, t')
        → Keeps t t'
    unfolding load_properties
    load-Keeps prefix t t' ok h = elim (Option-cases (attribute (codes "file"))) [
      | inr (src, a) ↦ file-Keeps _ prefix t t' ok (rw (a, load_properties) at h)
      | inl a ↦ elim (Option-cases (attribute (codes "url"))) [
        | inr (src, b) ↦
            if_some-Keeps _ t t' ok (property_read-Keeps t (Sources.url_fetch sources src) prefix)
              (rw (a, b, load_properties) at h)
        | inl b ↦ elim (Option-cases (attribute (codes "resource"))) [
          | inr (src, c) ↦
              read_resource-Keeps _ _ prefix t t' ok (rw (a, b, c, load_properties) at h)
          | inl c ↦ elim (Option-cases (attribute (codes "environment"))) [
            | inr (src, d) ↦
                if_some-Keeps _ t t' ok
                  (read_environ-Keeps (maybe_append_dot src) (Sources.environ sources) t)
                  (rw (a, b, c, d, load_properties) at h)
            | inl d ↦
                if_some-Keeps (false, t) t t' ok (λ j v i. i)
                  (rw (a, b, c, d, load_properties) at h)
          ]
        ]
      ]
    ]

    -- Whatever the `property` task is told to set or to read, and whether it succeeds or fails, a
    -- property that had a value before has the same value afterwards.
    pub property_invoke-Keeps :
        (t t' : Dict.Table D) (ok : Bool)
        → property_invoke D sources P path_dict resolve_fileset fuel expand attribute t
          ≡ some (ok, t')
        → (j v : Bytes) → Dict.lookup D t j ≡ some v
        → Dict.lookup D t' j ≡ some v
    unfolding property_invoke
    property_invoke-Keeps t t' ok h = elim (Option-cases (attribute (codes "name"))) [
      | inr (name, e) ↦ (define_property-Defines name t t' ok (rw (e, property_invoke) at h)).keeps
      | inl e ↦ load-Keeps _ t t' ok (rw (e, property_invoke) at h)
    ]

    -- A `property` task with a name succeeds exactly if the property has a value afterwards; it sets
    -- no other property; and where it fails, the table of properties is the one from before.
    pub property_invoke-name :
        (name : Bytes) (t t' : Dict.Table D) (ok : Bool)
        → attribute (codes "name") ≡ some name
        → property_invoke D sources P path_dict resolve_fileset fuel expand attribute t
          ≡ some (ok, t')
        → (ok ≡ is_some (Dict.lookup D t' name))
          × ((j : Bytes) → streq name j ≡ false → Dict.lookup D t' j ≡ Dict.lookup D t j)
          × (ok ≡ false → t' ≡ t)
    unfolding property_invoke
    property_invoke-name name t t' ok e h =
        let d = define_property-Defines name t t' ok (rw (e, property_invoke) at h) in
        (d.answers, d.elsewhere, d.failure)
