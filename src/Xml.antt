-- ===== src/Xml.antt =====
-- The tree that src/xml.c builds from the events of expat: `xml_node_t`, its functions and the three
-- callbacks. Allocation is taken to succeed, and names and values are not `NULL`. expat itself is
-- outside of the model: a document is the sequence of its events.
pub mod Build
use gantt.Prelude.{
  ℕ, zero, suc, ◌-◌, Bool, true, false, Option, none, some, List, [], ◌∷◌, ◌++◌, ◌==◌,
  if◌then◌else◌,
}
use gantt.Text.{Bytes, codes, streq, str_strip}

-- `xml_attr_t`
abbrev pub XmlAttr : Type 0
XmlAttr = Bytes × Bytes

-- `xml_node_t`; its children are the list behind their `next` pointers.
mutual
  pub data XmlNode : Type 0 where
    node : Bytes → List XmlAttr → Option Bytes → XmlNodes → XmlNode

  pub data XmlNodes : Type 0 where
    nil : XmlNodes
    cons : XmlNode → XmlNodes → XmlNodes

-- `xml_get_attr` on expat's array, and `xml_node_get_attr` on the list of a node.
unfoldable pub xml_get_attr : List XmlAttr → Bytes → Option Bytes
xml_get_attr [] name = none
xml_get_attr ((attr, value) ∷ attrs) name =
    if streq attr name then some value else xml_get_attr attrs name

-- `xml_node_add_attr`, which puts an attribute in front.
unfoldable pub add_attr : List XmlAttr → XmlAttr → List XmlAttr
add_attr attrs attr = attr ∷ attrs

-- The loop that copies expat's attributes.
unfoldable pub copy_attrs : List XmlAttr → List XmlAttr → List XmlAttr
copy_attrs attrs [] = attrs
copy_attrs attrs (attr ∷ rest) = copy_attrs (add_attr attrs attr) rest

-- `xml_node_append_text`
unfoldable pub append_text : Option Bytes → Bytes → Option Bytes
append_text text [] = text
append_text none (c ∷ more) = some (c ∷ more)
append_text (some text) (c ∷ more) = some (text ++ c ∷ more)

-- `xml_node_add_child`, at the end of the list.
unfoldable pub add_child : XmlNodes → XmlNode → XmlNodes
add_child nil child = cons child nil
add_child (cons first rest) child = cons first (add_child rest child)

-- `xml_node_get_text`
unfoldable pub node_text : Option Bytes → Option Bytes
node_text none = none
node_text (some text) = some (str_strip text)

-- The text before and behind the first separator.
unfoldable pub split_at : ℕ → Bytes → Option (Bytes × Bytes)
split_at sep [] = none
split_at sep (c ∷ text) =
    let rest = split_at sep text in
    if c == sep
    then some ([], text)
    else elim rest [ none ↦ none | some (before, after) ↦ some (c ∷ before, after) ]

-- `XML_NS_SEP`
abbrev pub xml_ns_sep : ℕ
xml_ns_sep = 1

-- `xml_ns_normalize`, without its warning.
unfoldable pub xml_ns_normalize : Bytes → Bytes
xml_ns_normalize raw_name = elim (split_at xml_ns_sep raw_name) [
  | none ↦ raw_name
  | some (uri, name) ↦
      if streq uri (codes "antlib:org.apache.ivy.ant") then codes "ivy:" ++ name else name
]

-- What expat calls back with.
pub data Event : Type 0 where
  start_element : Bytes → List XmlAttr → Event
  end_element : Bytes → Event
  char_data : Bytes → Event

-- A node that is open: what it holds so far.
pub record OpenNode : Type 0 where
  pub name : Bytes
  pub attrs : List XmlAttr
  pub text : Option Bytes
  pub children : XmlNodes

-- `dom_parse_context_t`: the current node with its ancestors behind it, and the depth. The current
-- node and its ancestors are the last children of one another, so that they stand apart here.
pub record DomParseContext : Type 0 where
  pub current : List OpenNode
  pub depth : ℕ

unfoldable pub close_node : OpenNode → XmlNode
close_node n = node n.name n.attrs n.text n.children

unfoldable pub dom_start_element : Bytes → List XmlAttr → DomParseContext → DomParseContext
dom_start_element name attrs ctx =
    let new : OpenNode = record {
      name = xml_ns_normalize name;
      attrs = copy_attrs [] attrs;
      text = none;
      children = nil;
    } in
    record {
      current = if ctx.depth == 0 then new ∷ [] else new ∷ ctx.current;
      depth = suc ctx.depth;
    }

-- The current node becomes its parent, if there is one.
unfoldable pub leave_node : List OpenNode → List OpenNode
leave_node [] = []
leave_node (n ∷ []) = n ∷ []
leave_node (n ∷ parent ∷ ancestors) =
    record parent { children = add_child parent.children (close_node n) } ∷ ancestors

unfoldable pub dom_end_element : DomParseContext → DomParseContext
dom_end_element ctx = record { current = leave_node ctx.current; depth = ctx.depth - 1 }

unfoldable pub text_node : Bytes → List OpenNode → List OpenNode
text_node text [] = []
text_node text (n ∷ ancestors) = record n { text = append_text n.text text } ∷ ancestors

unfoldable pub dom_char_data : Bytes → DomParseContext → DomParseContext
dom_char_data text ctx = record ctx { current = text_node text ctx.current }

unfoldable pub handle : Event → DomParseContext → DomParseContext
handle (start_element name attrs) ctx = dom_start_element name attrs ctx
handle (end_element name) ctx = dom_end_element ctx
handle (char_data text) ctx = dom_char_data text ctx

-- `XML_Parse`, which calls back for each event.
unfoldable pub run : List Event → DomParseContext → DomParseContext
run [] ctx = ctx
run (event ∷ events) ctx = run events (handle event ctx)

-- The root of the document: the outermost open node, with all open nodes in it closed.
unfoldable pub close_all : OpenNode → List OpenNode → XmlNode
close_all n [] = close_node n
close_all n (parent ∷ ancestors) =
    close_all (record parent { children = add_child parent.children (close_node n) }) ancestors

unfoldable pub root_of : List OpenNode → Option XmlNode
root_of [] = none
root_of (n ∷ ancestors) = some (close_all n ancestors)

-- `xml_parse_file`, from the events on.
unfoldable pub xml_parse : List Event → Option XmlNode
xml_parse events = root_of (run events (record { current = []; depth = 0 })).current
