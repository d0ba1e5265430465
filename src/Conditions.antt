-- ===== src/Conditions.antt =====
-- The `condition` task of src/property.c: attributes and nested elements are tested, and a property
-- is set from the outcome. `resolve` is `resolve_variables` of `Variables` on the property table, at
-- any fuel; where it does not return, nothing does, which is `none`.
-- The version of Java, the name of the system, `file_exists` and `sscanf` of "%d.%d.%d", which
-- leaves the numbers that it does not find at 0, are parameters.
pub mod Laws
pub mod Task
use gantt.Prelude.{
  ℕ, Bool, true, false, ◌||◌, ◌&&◌, not, Option, none, some, List, [], ◌∷◌, compare, Ordering,
  if◌then◌else◌,
}
use gantt.Text.{Bytes, codes, streq}
use gantt.Dict.{Dict}
use gantt.Variables.{resolve_variables}
use gantt.Platform.{strcaseeq, parse_boolean, os_matches, os_family_matches}

-- `xml_node_t`: the name, the attributes and the children.
mutual
  pub data XmlNode : Type 0 where
    element : Bytes → (Bytes → Option Bytes) → XmlNodes → XmlNode

  pub data XmlNodes : Type 0 where
    no_node : XmlNodes
    node_then : XmlNode → XmlNodes → XmlNodes

-- The major, minor and patch number, which are `int`s that are not negative.
abbrev pub Version : Type 0
Version = ℕ × ℕ × ℕ

-- `compare_versions`, of what `parse_version_string` found; -1, 0 and 1 are `lt`, `eq` and `gt`.
unfoldable pub compare_versions : Version → Version → Ordering
compare_versions (maj1, min1, pat1) (maj2, min2, pat2) = elim (compare maj1 maj2) [
  | Ordering.lt ↦ Ordering.lt
  | Ordering.gt ↦ Ordering.gt
  | Ordering.eq ↦ elim (compare min1 min2) [
    | Ordering.lt ↦ Ordering.lt
    | Ordering.gt ↦ Ordering.gt
    | Ordering.eq ↦ compare pat1 pat2
  ]
]

-- `cmp >= 0` and `cmp == 0`
unfoldable pub at_least : Ordering → Bool
at_least Ordering.lt = false
at_least Ordering.eq = true
at_least Ordering.gt = true

unfoldable pub is_eq : Ordering → Bool
is_eq Ordering.lt = false
is_eq Ordering.eq = true
is_eq Ordering.gt = false

-- A test of a value that may not return.
unfoldable pub test_value : {A B : Type 0} → (A → B) → Option A → Option B
test_value test none = none
test_value test (some a) = some (test a)

-- What the program reads from outside.
pub record Surroundings : Type 0 where
  pub java_version : Bytes
  pub os : Bytes
  pub parse_version_string : Bytes → Version
  pub file_exists : Bytes → Bool

unfoldable pub is_set : Option Bytes → Bool
is_set none = false
is_set (some value) = true

unfoldable pub ignores_case : Option Bytes → Bool
ignores_case none = false
ignores_case (some casesensitive) = strcaseeq casesensitive (codes "false")

-- What a loop does after a child: stop at the child's outcome `stop`, or go on.
unfoldable pub unless_stopped : Bool → Option Bool → Option Bool → Option Bool
unless_stopped stop none rest = none
unless_stopped true (some true) rest = some true
unless_stopped true (some false) rest = rest
unless_stopped false (some true) rest = rest
unless_stopped false (some false) rest = some false

module _ (outside : Surroundings) (resolve : Bytes → Option Bytes)
    (property : Bytes → Option Bytes) where
  unfoldable pub compare_java : Bytes → Ordering
  compare_java version =
      compare_versions (outside.parse_version_string outside.java_version)
        (outside.parse_version_string version)

  unfoldable pub evaluate_javaversion : (Bytes → Option Bytes) → Option Bool
  evaluate_javaversion attr = elim (attr (codes "atleast")) [
    | some atleast ↦ test_value (λ v. at_least (compare_java v)) (resolve atleast)
    | none ↦ elim (attr (codes "exactly")) [
      | some exactly ↦ test_value (λ v. is_eq (compare_java v)) (resolve exactly)
      | none ↦ some false
    ]
  ]

  -- Two texts are resolved, then compared.
  unfoldable pub compare_resolved : (Bytes → Bytes → Bool) → Bytes → Bytes → Option Bool
  compare_resolved test arg1 arg2 = elim (resolve arg1) [
    | none ↦ none
    | some val1 ↦ test_value (test val1) (resolve arg2)
  ]

  unfoldable pub evaluate_equals_cond : (Bytes → Option Bytes) → Option Bool
  evaluate_equals_cond attr = elim (attr (codes "arg1")) [
    | none ↦ some false
    | some arg1 ↦ elim (attr (codes "arg2")) [
      | none ↦ some false
      | some arg2 ↦
          compare_resolved
            (if ignores_case (attr (codes "casesensitive")) then strcaseeq else streq) arg1 arg2
    ]
  ]

  unfoldable pub evaluate_isset_cond : (Bytes → Option Bytes) → Option Bool
  evaluate_isset_cond attr = elim (attr (codes "property")) [
    | none ↦ some false
    | some name ↦ some (is_set (property name))
  ]

  unfoldable pub evaluate_istrue_cond : (Bytes → Option Bytes) → Option Bool
  evaluate_istrue_cond attr = elim (attr (codes "value")) [
    | none ↦ some false
    | some value ↦ test_value (λ v. parse_boolean (some v) false) (resolve value)
  ]

  unfoldable pub evaluate_isfalse_cond : (Bytes → Option Bytes) → Option Bool
  evaluate_isfalse_cond attr = elim (attr (codes "value")) [
    | none ↦ some false
    | some value ↦ test_value (λ v. not (parse_boolean (some v) true)) (resolve value)
  ]

  -- A filter that is not given is passed by every system.
  unfoldable pub evaluate_os_cond : (Bytes → Option Bytes) → Option Bool
  evaluate_os_cond attr = some (
      os_family_matches outside.os (attr (codes "family"))
      && os_matches outside.os (attr (codes "name")))

  -- The conditions without children.
  unfoldable pub evaluate_simple : Bytes → (Bytes → Option Bytes) → Option Bool
  evaluate_simple name attr =
      if streq name (codes "javaversion")
      then evaluate_javaversion attr
      else if streq name (codes "equals")
      then evaluate_equals_cond attr
      else if streq name (codes "isset")
      then evaluate_isset_cond attr
      else if streq name (codes "istrue")
      then evaluate_istrue_cond attr
      else if streq name (codes "isfalse")
      then evaluate_isfalse_cond attr
      else if streq name (codes "os")
      then evaluate_os_cond attr
      else some false

  unfoldable pub evaluate_children :
      Bytes → (Bytes → Option Bytes) → Option Bool → Option Bool → Option Bool → Option Bool
  evaluate_children name attr conjunction disjunction negation =
      if streq name (codes "and")
      then conjunction
      else if streq name (codes "or")
      then disjunction
      else if streq name (codes "not")
      then negation
      else evaluate_simple name attr

  unfoldable mutual
    -- `evaluate_xml_condition`. The three outcomes of the children are those of `<and>`, `<or>` and
    -- `<not>`, of which the name selects one.
    pub evaluate_xml_condition : XmlNode → Option Bool
    evaluate_xml_condition (element name attr children) =
        evaluate_children name attr (evaluate_and_cond children) (evaluate_or_cond children)
          (evaluate_not_cond children)

    pub evaluate_and_cond : XmlNodes → Option Bool
    evaluate_and_cond no_node = some true
    evaluate_and_cond (node_then child rest) =
        unless_stopped false (evaluate_xml_condition child) (evaluate_and_cond rest)

    pub evaluate_or_cond : XmlNodes → Option Bool
    evaluate_or_cond no_node = some false
    evaluate_or_cond (node_then child rest) =
        unless_stopped true (evaluate_xml_condition child) (evaluate_or_cond rest)

    -- Only the first child counts.
    pub evaluate_not_cond : XmlNodes → Option Bool
    evaluate_not_cond no_node = some true
    evaluate_not_cond (node_then child rest) = test_value not (evaluate_xml_condition child)
