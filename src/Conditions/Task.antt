-- ===== src/Conditions/Task.antt =====
-- `condition_invoke` of src/property.c.
use mathlib.Core.Option.{some-injective}
use gantt.Prelude.{
  Option-cases, inl, inr, ap, sym, ◌∙◌, ◌≢◌, arith, ◌≡◌, refl, Bool, true, false, not, Option, none,
  some, if◌then◌else◌,
}
use gantt.Text.{Bytes, codes, streq, streq_iff}
use gantt.Dict.{Dict}
use gantt.Location.{expand_location}
use gantt.Platform.{parse_boolean, os_matches, os_family_matches}
use gantt.Conditions.{
  XmlNode, XmlNodes, no_node, node_then, Surroundings, test_value, is_set, compare_resolved,
  evaluate_xml_condition,
}

-- `task_t` as far as this task reads it, and what the project has.
pub record ConditionTask : Type 0 where
  pub attribute : Bytes → Option Bytes
  pub children : XmlNodes

-- An attribute that is there gives `condition_met` a new value.
unfoldable pub check_attribute : Option Bytes → (Bytes → Option Bool) → Option Bool → Option Bool
check_attribute none test condition_met = condition_met
check_attribute (some check) test none = none
check_attribute (some check) test (some old) = test check

-- A check of two attributes, made where both are there.
unfoldable pub check_both :
    Option Bytes → Option Bytes → (Bytes → Bytes → Option Bool) → Option Bool → Option Bool
check_both none arg2 test condition_met = condition_met
check_both (some arg1) none test condition_met = condition_met
check_both (some arg1) (some arg2) test none = none
check_both (some arg1) (some arg2) test (some old) = test arg1 arg2

-- The first nested condition is evaluated where no attribute was met.
unfoldable pub check_children : XmlNodes → (XmlNode → Option Bool) → Option Bool → Option Bool
check_children children evaluate none = none
check_children children evaluate (some true) = some true
check_children no_node evaluate (some false) = some false
check_children (node_then child rest) evaluate (some false) = evaluate child

module _ (outside : Surroundings) (D : Dict Bytes) (resolve : Dict.Table D → Bytes → Option Bytes)
    (current_dir : Bytes) (base_dir : Option Bytes) where
  unfoldable pub condition_met : ConditionTask → Dict.Table D → Option Bool
  condition_met task property_dict =
      let property = Dict.lookup D property_dict in
      let value = resolve property_dict in
      let isset =
        check_attribute (task.attribute (codes "isset")) (λ name. some (is_set (property name)))
          (some false) in
      let equals =
        check_both (task.attribute (codes "arg1")) (task.attribute (codes "arg2"))
          (compare_resolved outside value property streq) isset in
      let os_family =
        check_attribute (task.attribute (codes "os_family"))
          (λ family. some (os_family_matches outside.os (some family))) equals in
      let os_name =
        check_attribute (task.attribute (codes "os_name"))
          (λ name. some (os_matches outside.os (some name))) os_family in
      let available_file =
        check_attribute (task.attribute (codes "available_file"))
          (λ file.
            test_value (λ name. outside.file_exists (expand_location current_dir base_dir name))
              (value file))
          os_name in
      let istrue =
        check_attribute (task.attribute (codes "istrue"))
          (λ check. test_value (λ v. parse_boolean (some v) false) (value check)) available_file in
      let isfalse =
        check_attribute (task.attribute (codes "isfalse"))
          (λ check. test_value (λ v. not (parse_boolean (some v) true)) (value check)) istrue in
      check_children task.children (evaluate_xml_condition outside value property) isfalse

  -- The value that is set, by the outcome: `value`, "true" where there is none, or `else`.
  unfoldable pub chosen_value : ConditionTask → Bool → Option Bytes
  chosen_value task true = elim (task.attribute (codes "value")) [
    | none ↦ some (codes "true")
    | some value ↦ some value
  ]
  chosen_value task false = task.attribute (codes "else")

  unfoldable pub set_chosen : Bytes → Option Bytes → Dict.Table D → Option (Dict.Table D)
  set_chosen name none property_dict = some property_dict
  set_chosen name (some value) property_dict =
      test_value (Dict.insert D property_dict name) (resolve property_dict value)

  -- The task's answer and the table.
  unfoldable pub condition_invoke : ConditionTask → Dict.Table D → Option (Bool × Dict.Table D)
  condition_invoke task property_dict = elim (task.attribute (codes "property")) [
    | none ↦ some (false, property_dict)
    | some name ↦ elim (condition_met task property_dict) [
      | none ↦ none
      | some met ↦
          test_value (λ t. (true, t)) (set_chosen name (chosen_value task met) property_dict)
    ]
  ]

  -- Where the property is named, the conditions are evaluated to `met` and the chosen value is
  -- resolved, the task succeeds; the property has that value then, whether or not it was set
  -- before, and every other property is as it was.
  pub condition_invoke-sets :
      (task : ConditionTask) (t : Dict.Table D) (name value text : Bytes) (met : Bool) (j : Bytes)
      → task.attribute (codes "property") ≡ some name
      → condition_met task t ≡ some met
      → chosen_value task met ≡ some text
      → resolve t text ≡ some value
      → (t' : Dict.Table D) × (condition_invoke task t ≡ some (true, t'))
        × (Dict.lookup D t' j ≡ (if streq name j then some value else Dict.lookup D t j))
  unfolding condition_invoke set_chosen test_value
  condition_invoke-sets task t name value text met j p c v r = (
    Dict.insert D t name value,
    rw (p, condition_invoke, c, v, set_chosen, r) refl,
    Dict.lookup-insert D t name j value,
  )

  test_value-some :
      {A B : Type 0} (test : A → B) (o : Option A) (b : B)
      → test_value test o ≡ some b
      → (a : A) × (o ≡ some a) × (test a ≡ b)
  unfolding test_value
  test_value-some test none b h = cc
  test_value-some test (some a) b h = (a, refl, some-injective _ _ h)

  set_chosen-other :
      (name : Bytes) (o : Option Bytes) (t t' : Dict.Table D) (j : Bytes)
      → streq name j ≡ false
      → set_chosen name o t ≡ some t'
      → Dict.lookup D t' j ≡ Dict.lookup D t j
  unfolding set_chosen
  set_chosen-other name none t t' j n h =
      ap (λ (x : Dict.Table D). Dict.lookup D x j) (sym (some-injective _ _ h))
  set_chosen-other name (some text) t t' j n h =
      let (value, _, e) = test_value-some (Dict.insert D t name) (resolve t text) t' h in
      ap (λ (x : Dict.Table D). Dict.lookup D x j) (sym e)
      ∙ rw (Dict.lookup-insert D t name j value, n) refl

  -- Whenever the task comes back, it succeeds if its property is named and fails if not, and no
  -- property but that one has another value than before.
  pub condition_invoke-only :
      (task : ConditionTask) (t t' : Dict.Table D) (ok : Bool) (j : Bytes)
      → condition_invoke task t ≡ some (ok, t')
      → task.attribute (codes "property") ≢ some j
      → (ok ≡ is_set (task.attribute (codes "property"))) × (Dict.lookup D t' j ≡ Dict.lookup D t j)
  unfolding condition_invoke is_set
  condition_invoke-only task t t' ok j h other =
      elim (Option-cases (task.attribute (codes "property"))) [
        | inl e ↦
            let same = some-injective _ _ (rw (e, condition_invoke) at h) in
            (
              rw (e, is_set) (sym (ap (λ (p : Bool × Dict.Table D). p.0) same)),
              ap (λ (p : Bool × Dict.Table D). Dict.lookup D p.1 j) (sym same),
            )
        | inr (name, e) ↦ elim (Option-cases (condition_met task t)) [
          | inl f ↦ let impossible = rw (e, f, condition_invoke) at h in cc
          | inr (met, f) ↦
              let (t'', set, same) =
                test_value-some (λ (x : Dict.Table D). (true, x))
                  (set_chosen name (chosen_value task met) t) (ok, t')
                  (rw (e, f, condition_invoke) at h) in
              (
                rw (e, is_set) (sym (ap (λ (p : Bool × Dict.Table D). p.0) same)),
                ap (λ (p : Bool × Dict.Table D). Dict.lookup D p.1 j) (sym same)
                    ∙ set_chosen-other name (chosen_value task met) t t'' j
                        (ground (arith, streq_iff name j)) set,
              )
        ]
      ]
