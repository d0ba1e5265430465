-- ===== src/Conditions/Laws.antt =====
-- Nested conditions under `<not>`, `<istrue>` and `<isfalse>` (src/property.c).
use gantt.Prelude.{
  arith, inr, inl, Option-cases, ◌≡◌, refl, Bool, true, false, not, Option, none, some, ◌∙◌,
}
use gantt.Text.{Bytes, codes, streq}
use gantt.Platform.{parse_boolean}
use gantt.Conditions.{
  evaluate_istrue_cond, evaluate_isfalse_cond, XmlNode, XmlNodes, element, no_node, node_then,
  Surroundings, test_value, unless_stopped, evaluate_children, evaluate_xml_condition,
  evaluate_and_cond, evaluate_or_cond,
}

-- No attributes.
abbrev pub no_attributes : Bytes → Option Bytes
no_attributes name = none

abbrev pub and_node : XmlNodes → XmlNode
and_node children = element (codes "and") no_attributes children

abbrev pub or_node : XmlNodes → XmlNode
or_node children = element (codes "or") no_attributes children

abbrev pub not_node : XmlNode → XmlNode
not_node child = element (codes "not") no_attributes (node_then child no_node)

-- Each node in a `<not>` of its own.
pub negated : XmlNodes → XmlNodes
negated no_node = no_node
negated (node_then child rest) = node_then (not_node child) (negated rest)

-- One of the laws, for `negation` the other way round.
stopped-not :
    (o rest : Option Bool)
    → test_value not (unless_stopped true o rest)
      ≡ unless_stopped false (test_value not o) (test_value not rest)
unfolding test_value unless_stopped
stopped-not none rest = refl
stopped-not (some true) rest = refl
stopped-not (some false) none = refl
stopped-not (some false) (some b) = refl

not-stopped :
    (o rest : Option Bool)
    → test_value not (unless_stopped false o rest)
      ≡ unless_stopped true (test_value not o) (test_value not rest)
unfolding test_value unless_stopped
not-stopped none rest = refl
not-stopped (some false) rest = refl
not-stopped (some true) none = refl
not-stopped (some true) (some b) = refl

module _ (outside : Surroundings) (resolve : Bytes → Option Bytes)
    (property : Bytes → Option Bytes) where
  evaluate-not_node :
      (child : XmlNode)
      → evaluate_xml_condition outside resolve property (not_node child)
        ≡ test_value not (evaluate_xml_condition outside resolve property child)
  unfolding evaluate_xml_condition evaluate_children streq
  evaluate-not_node child = refl

  evaluate_or_cond-not :
      (children : XmlNodes)
      → test_value not (evaluate_or_cond outside resolve property children)
        ≡ evaluate_and_cond outside resolve property (negated children)
  unfolding evaluate_xml_condition negated test_value
  evaluate_or_cond-not no_node = refl
  evaluate_or_cond-not (node_then child rest) =
      stopped-not (evaluate_xml_condition outside resolve property child)
        (evaluate_or_cond outside resolve property rest)
      ∙ rw (evaluate-not_node child, evaluate_or_cond-not rest) refl

  evaluate_and_cond-not :
      (children : XmlNodes)
      → test_value not (evaluate_and_cond outside resolve property children)
        ≡ evaluate_or_cond outside resolve property (negated children)
  unfolding evaluate_xml_condition negated test_value
  evaluate_and_cond-not no_node = refl
  evaluate_and_cond-not (node_then child rest) =
      not-stopped (evaluate_xml_condition outside resolve property child)
        (evaluate_and_cond outside resolve property rest)
      ∙ rw (evaluate-not_node child, evaluate_and_cond-not rest) refl

  -- A `<not>` of an `<or>` is the `<and>` of the `<not>`s, and a `<not>` of an `<and>` the `<or>` of
  -- the `<not>`s, with the loops' early ends, and where a child does not return too.
  pub evaluate_xml_condition-not :
      (children : XmlNodes)
      → (evaluate_xml_condition outside resolve property (not_node (or_node children))
          ≡ evaluate_xml_condition outside resolve property (and_node (negated children)))
        × (evaluate_xml_condition outside resolve property (not_node (and_node children))
            ≡ evaluate_xml_condition outside resolve property (or_node (negated children)))
  unfolding evaluate_xml_condition evaluate_children streq
  evaluate_xml_condition-not children =
      (evaluate_or_cond-not children, evaluate_and_cond-not children)

  parse_boolean-agrees :
      (str : Option Bytes) → parse_boolean str false ≡ true → parse_boolean str true ≡ true
  unfolding parse_boolean
  parse_boolean-agrees none h = cc
  parse_boolean-agrees (some str) h = ground arith

  -- Where `<istrue>` is true of some attributes, `<isfalse>` is false of them.
  pub evaluate_istrue_cond-isfalse :
      (attr : Bytes → Option Bytes)
      → evaluate_istrue_cond outside resolve property attr ≡ some true
      → evaluate_isfalse_cond outside resolve property attr ≡ some false
  unfolding evaluate_istrue_cond evaluate_isfalse_cond test_value
  evaluate_istrue_cond-isfalse attr h = elim (Option-cases (attr (codes "value"))) [
    | inl e ↦ ground arith
    | inr (v, e) ↦ elim (Option-cases (resolve v)) [
      | inl f ↦ ground arith
      | inr (w, f) ↦ ground (arith, parse_boolean-agrees (some w))
    ]
  ]
