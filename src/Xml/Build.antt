-- ===== src/Xml/Build.antt =====
-- Documents, their events and their trees (src/xml.c).
use mathlib.Core.List.{append_assoc, append-nil}
use gantt.Prelude.{
  sym, if◌then◌else◌, ℕ, suc, ◌≡◌, refl, ◌∙◌, ap, Option, none, some, List, [], ◌∷◌, ◌++◌, arith,
  inl, inr, Option-cases,
}
use gantt.Text.{Bytes, Lacks, codes, streq, streq_iff}
use gantt.Xml.{
  XmlAttr, XmlNode, node, XmlNodes, nil, cons, xml_get_attr, add_attr, copy_attrs, append_text,
  add_child, xml_ns_normalize, Event, start_element, end_element, char_data, OpenNode,
  DomParseContext, close_node, dom_start_element, dom_end_element, dom_char_data, leave_node,
  text_node, handle, run, root_of, split_at, xml_ns_sep, close_all, xml_parse,
}

-- A name as a document has it: without a namespace, or in one.
pub data ElementName : Type 0 where
  local : Bytes → ElementName
  in_namespace : Bytes → Bytes → ElementName

-- What expat gives for it: the namespace, the separator and the name in it.
pub raw_name : ElementName → Bytes
raw_name (local name) = name
raw_name (in_namespace uri name) = uri ++ xml_ns_sep ∷ name

-- The name for which gantt looks: with a prefix in the namespace of Ivy only.
pub dispatch_name : ElementName → Bytes
dispatch_name (local name) = name
dispatch_name (in_namespace uri name) =
    if streq uri (codes "antlib:org.apache.ivy.ant") then codes "ivy:" ++ name else name

-- A document: an element with text and elements in it, in the order of the text of the file.
mutual
  pub data Element : Type 0 where
    element : ElementName → List XmlAttr → Contents → Element

  pub data Contents : Type 0 where
    empty : Contents
    text : Bytes → Contents → Contents
    child : Element → Contents → Contents

-- What expat calls back with, and what follows.
mutual
  pub element_events : Element → List Event → List Event
  element_events (element name attrs contents) rest =
      start_element (raw_name name) attrs
      ∷ contents_events contents (end_element (raw_name name) ∷ rest)

  pub contents_events : Contents → List Event → List Event
  contents_events empty rest = rest
  contents_events (text t contents) rest = char_data t ∷ contents_events contents rest
  contents_events (child e contents) rest = element_events e (contents_events contents rest)

-- All text of an element, without that of its children.
pub all_text : Contents → Bytes
all_text empty = []
all_text (text t contents) = t ++ all_text contents
all_text (child e contents) = all_text contents

-- No text is `NULL`.
pub text_or_null : Bytes → Option Bytes
text_or_null [] = none
text_or_null (c ∷ t) = some (c ∷ t)

-- The attributes from the last to the first.
pub last_first : List XmlAttr → List XmlAttr
last_first [] = []
last_first (attr ∷ attrs) = last_first attrs ++ attr ∷ []

-- The tree of a document: each element with its name, all its attributes from the last to the first,
-- the whole text, and the children in their order.
mutual
  pub element_tree : Element → XmlNode
  element_tree (element name attrs contents) =
      node (dispatch_name name) (last_first attrs) (text_or_null (all_text contents))
        (contents_trees contents)

  pub contents_trees : Contents → XmlNodes
  contents_trees empty = nil
  contents_trees (text t contents) = contents_trees contents
  contents_trees (child e contents) = cons (element_tree e) (contents_trees contents)

-- The names and namespaces hold no separator, which XML does not allow.
abbrev pub IsName : ElementName → Type 0
IsName (local name) = Lacks xml_ns_sep name
IsName (in_namespace uri name) = Lacks xml_ns_sep uri

abbrev mutual
  pub HasNames : Element → Type 0
  HasNames (element name attrs contents) = IsName name × ContentsHaveNames contents

  pub ContentsHaveNames : Contents → Type 0
  ContentsHaveNames empty = Unit
  ContentsHaveNames (text t contents) = ContentsHaveNames contents
  ContentsHaveNames (child e contents) = HasNames e × ContentsHaveNames contents

copy_attrs-last_first :
    (copied attrs : List XmlAttr) → copy_attrs copied attrs ≡ last_first attrs ++ copied
unfolding copy_attrs add_attr last_first
copy_attrs-last_first copied [] = refl
copy_attrs-last_first copied (attr ∷ attrs) =
    copy_attrs-last_first (attr ∷ copied) attrs
    ∙ sym (append_assoc (last_first attrs) (attr ∷ []) copied)

split_at-Lacks : (name : Bytes) → Lacks xml_ns_sep name → split_at xml_ns_sep name ≡ none
unfolding split_at
split_at-Lacks [] h = refl
split_at-Lacks (c ∷ name) h = ground (arith, h.0, split_at-Lacks name h.1)

split_at-append :
    (uri name : Bytes)
    → Lacks xml_ns_sep uri
    → split_at xml_ns_sep (uri ++ xml_ns_sep ∷ name) ≡ some (uri, name)
unfolding split_at
split_at-append [] name h = refl
split_at-append (c ∷ uri) name h = ground (arith, h.0, split_at-append uri name h.1)

normalize-raw_name :
    (name : ElementName) → IsName name → xml_ns_normalize (raw_name name) ≡ dispatch_name name
unfolding xml_ns_normalize raw_name dispatch_name
normalize-raw_name (local name) h = rw (split_at-Lacks name h, xml_ns_normalize) refl
normalize-raw_name (in_namespace uri name) h =
    rw (split_at-append uri name h, xml_ns_normalize) refl

-- The tree in the terms of the callbacks.
mutual
  built_tree : Element → XmlNode
  built_tree (element name attrs contents) =
      node (xml_ns_normalize (raw_name name)) (copy_attrs [] attrs)
        (text_or_null (all_text contents)) (built_trees contents)

  built_trees : Contents → XmlNodes
  built_trees empty = nil
  built_trees (text t contents) = built_trees contents
  built_trees (child e contents) = cons (built_tree e) (built_trees contents)

mutual
  unfolding built_tree built_trees element_tree contents_trees

  built-element : (e : Element) → HasNames e → built_tree e ≡ element_tree e
  built-element (element name attrs contents) (n, h) =
      rw
        (
          normalize-raw_name name n,
          copy_attrs-last_first [] attrs,
          append-nil (last_first attrs),
          built-contents contents h,
        )
        refl

  built-contents :
      (contents : Contents)
      → ContentsHaveNames contents
      → built_trees contents ≡ contents_trees contents
  built-contents empty h = refl
  built-contents (text t contents) h = built-contents contents h
  built-contents (child e contents) h = rw (built-element e h.0, built-contents contents h.1) refl

append_nodes : XmlNodes → XmlNodes → XmlNodes
append_nodes nil ys = ys
append_nodes (cons x xs) ys = cons x (append_nodes xs ys)

append_nodes-nil : (xs : XmlNodes) → append_nodes xs nil ≡ xs
unfolding append_nodes
append_nodes-nil nil = refl
append_nodes-nil (cons x xs) = ap (cons x) (append_nodes-nil xs)

append_nodes-add_child :
    (xs : XmlNodes) (y : XmlNode) (ys : XmlNodes)
    → append_nodes (add_child xs y) ys ≡ append_nodes xs (cons y ys)
unfolding append_nodes add_child
append_nodes-add_child nil y ys = refl
append_nodes-add_child (cons x xs) y ys = ap (cons x) (append_nodes-add_child xs y ys)

append_text-append :
    (o : Option Bytes) (s t : Bytes) → append_text (append_text o s) t ≡ append_text o (s ++ t)
unfolding append_text
append_text-append o [] t = refl
append_text-append none (c ∷ s) [] = rw (append-nil s) refl
append_text-append none (c ∷ s) (d ∷ t) = refl
append_text-append (some u) (c ∷ s) [] = rw (append-nil s) refl
append_text-append (some u) (c ∷ s) (d ∷ t) = ap some (append_assoc u (c ∷ s) (d ∷ t))

append_text-none : (t : Bytes) → append_text none t ≡ text_or_null t
unfolding append_text text_or_null
append_text-none [] = refl
append_text-none (c ∷ t) = refl

append_text-nil : (o : Option Bytes) → append_text o [] ≡ o
unfolding append_text
append_text-nil none = refl
append_text-nil (some t) = refl

-- An open node with more in it.
filled : OpenNode → Bytes → XmlNodes → OpenNode
filled n t children = record n {
  text = append_text n.text t;
  children = append_nodes n.children children;
}

filled-empty : (n : OpenNode) → filled n [] nil ≡ n
unfolding filled
filled-empty n = ground (arith, append_text-nil n.text, append_nodes-nil n.children)

new_node : Bytes → List XmlAttr → OpenNode
new_node name attrs = record {
  name = xml_ns_normalize name;
  attrs = copy_attrs [] attrs;
  text = none;
  children = nil;
}

start-inner :
    (name : Bytes) (attrs : List XmlAttr) (open_nodes : List OpenNode) (d : ℕ)
    → dom_start_element name attrs (record { current = open_nodes; depth = suc d })
      ≡ record { current = new_node name attrs ∷ open_nodes; depth = suc (suc d) }
unfolding dom_start_element new_node
start-inner name attrs open_nodes d = ground arith

end-inner :
    (n parent : OpenNode) (ancestors : List OpenNode) (d : ℕ)
    → dom_end_element (record { current = n ∷ parent ∷ ancestors; depth = suc d }) ≡ record {
      current = record parent { children = add_child parent.children (close_node n) } ∷ ancestors;
      depth = d;
    }
unfolding dom_end_element leave_node
end-inner n parent ancestors d = ground arith

close-filled :
    (name : ElementName) (attrs : List XmlAttr) (contents : Contents)
    → close_node
        (filled (new_node (raw_name name) attrs) (all_text contents) (built_trees contents))
      ≡ built_tree (element name attrs contents)
unfolding close_node filled new_node built_tree append_nodes
close-filled name attrs contents = rw (append_text-none (all_text contents)) refl

filled-text :
    (n : OpenNode) (t u : Bytes) (xs : XmlNodes)
    → filled (record n { text = append_text n.text t }) u xs ≡ filled n (t ++ u) xs
unfolding filled
filled-text n t u xs = rw (append_text-append n.text t u) refl

filled-child :
    (n : OpenNode) (t : Bytes) (x : XmlNode) (xs : XmlNodes)
    → filled (record n { children = add_child n.children x }) t xs ≡ filled n t (cons x xs)
unfolding filled
filled-child n t x xs = rw (append_nodes-add_child n.children x xs) refl

-- The current node with its ancestors, at a depth.
abbrev at : OpenNode → List OpenNode → ℕ → DomParseContext
at n ancestors d = record { current = n ∷ ancestors; depth = suc d }

mutual
  unfolding element_events contents_events built_trees all_text run handle dom_char_data text_node

  run-contents :
      (contents : Contents) (rest : List Event) (n : OpenNode) (ancestors : List OpenNode) (d : ℕ)
      → run (contents_events contents rest) (at n ancestors d)
        ≡ run rest (at (filled n (all_text contents) (built_trees contents)) ancestors d)
  run-contents empty rest n ancestors d = rw (filled-empty n) refl
  run-contents (text t contents) rest n ancestors d =
      run-contents contents rest (record n { text = append_text n.text t }) ancestors d
      ∙ ap (λ m. run rest (at m ancestors d))
          (filled-text n t (all_text contents) (built_trees contents))
  run-contents (child e contents) rest n ancestors d =
      run-element e (contents_events contents rest) n ancestors d
      ∙ run-contents contents rest (record n { children = add_child n.children (built_tree e) })
          ancestors d
      ∙ ap (λ m. run rest (at m ancestors d))
          (filled-child n (all_text contents) (built_tree e) (built_trees contents))

  run-element :
      (e : Element) (rest : List Event) (n : OpenNode) (ancestors : List OpenNode) (d : ℕ)
      → run (element_events e rest) (at n ancestors d)
        ≡ run rest (at (record n { children = add_child n.children (built_tree e) }) ancestors d)
  run-element (element name attrs contents) rest n ancestors d =
      ap (run (contents_events contents (end_element (raw_name name) ∷ rest)))
        (start-inner (raw_name name) attrs (n ∷ ancestors) d)
      ∙ run-contents contents (end_element (raw_name name) ∷ rest) (new_node (raw_name name) attrs)
          (n ∷ ancestors) (suc d)
      ∙ ap (run rest) (
          end-inner
            (filled (new_node (raw_name name) attrs) (all_text contents) (built_trees contents)) n
            ancestors (suc d))
      ∙ ap (λ x. run rest (at (record n { children = add_child n.children x }) ancestors d))
          (close-filled name attrs contents)

-- Parsing the events of a document whose names hold no separator gives its tree: each element with its
-- name, in the namespace of Ivy with the prefix "ivy:", with all its attributes from the last to the
-- first, the text that stands directly in it in one piece, and its children in their order.
pub xml_parse-element_tree :
    (e : Element) → HasNames e → xml_parse (element_events e []) ≡ some (element_tree e)
unfolding xml_parse root_of close_all element_events run handle dom_start_element dom_end_element
    leave_node new_node
xml_parse-element_tree (element name attrs contents) h =
    ap (λ (ctx : DomParseContext). root_of ctx.current)
      (run-contents contents (end_element (raw_name name) ∷ []) (new_node (raw_name name) attrs) []
        0)
    ∙ ap some (close-filled name attrs contents)
    ∙ ap some (built-element (element name attrs contents) h)

-- No name stands twice.
abbrev pub HasDistinctNames : List XmlAttr → Type 0
HasDistinctNames [] = Unit
HasDistinctNames ((name, value) ∷ attrs) = (xml_get_attr attrs name ≡ none) × HasDistinctNames attrs

get_attr-copy_attrs :
    (attrs copied : List XmlAttr) (name : Bytes)
    → HasDistinctNames attrs
    → xml_get_attr (copy_attrs copied attrs) name
      ≡ elim (xml_get_attr attrs name) [ some value ↦ some value | none ↦ xml_get_attr copied name ]
unfolding xml_get_attr copy_attrs add_attr
get_attr-copy_attrs [] copied name d = refl
get_attr-copy_attrs ((attr, value) ∷ attrs) copied name d =
    ground (arith, get_attr-copy_attrs attrs ((attr, value) ∷ copied) name d.1, streq_iff attr name)

-- Where no attribute is given twice, as XML demands, looking an attribute up in a node finds what
-- looking it up in the array of expat finds, although the node holds them in the opposite order.
pub get_attr-copied :
    (attrs : List XmlAttr) (name : Bytes)
    → HasDistinctNames attrs
    → xml_get_attr (copy_attrs [] attrs) name ≡ xml_get_attr attrs name
unfolding xml_get_attr
get_attr-copied attrs name d = elim (Option-cases (xml_get_attr attrs name)) [
  | inl e ↦ get_attr-copy_attrs attrs [] name d ∙ rw e refl
  | inr (value, e) ↦ get_attr-copy_attrs attrs [] name d ∙ rw e refl
]
