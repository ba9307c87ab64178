-- ===== src/Lexical/Nodes.antt =====
-- The readers of a Lexical document: `is_builtin`, `is_lexical_shaped`, `node_type`, `str_attr`,
-- `block_children`, `text_child_types` and `elem_type`.
pub mod Shaped
use yrby.Base.{
  ℕ, if◌then◌else◌, Bool, true, false, not, Option, none, some, List, [], ◌∷◌, ◌++◌, Str, codes,
  is_one_of,
}
use yrby.Yrs.{
  Yrs, Any, Out, any, y_xml_element, y_xml_text, XmlOut, element, fragment, text, Output, Node,
  Stored,
}

abbrev pub lexical_types : List Str
lexical_types =
    codes "paragraph"
    ∷ codes "heading"
    ∷ codes "quote"
    ∷ codes "code"
    ∷ codes "list"
    ∷ codes "listitem"
    ∷ codes "table"
    ∷ codes "tablerow"
    ∷ codes "tablecell"
    ∷ codes "link"
    ∷ codes "autolink"
    ∷ codes "linebreak"
    ∷ codes "tab"
    ∷ codes "text"
    ∷ codes "horizontalrule"
    ∷ []

unfoldable pub is_builtin : Str → Bool
is_builtin ty = is_one_of lexical_types ty

unfoldable pub is_inline_type : Str → Bool
is_inline_type ty = is_one_of (codes "link" ∷ codes "autolink" ∷ []) ty

abbrev is_there : {A : Type 0} → Option A → Bool
is_there none = false
is_there (some a) = true

module _ (y : Yrs) where
  abbrev pub stored_string : Option (Output y) → Option Str
  stored_string (some (any (Any.string s))) = some s
  stored_string _ = none

  abbrev pub string_or_empty : Option Str → Str
  string_or_empty none = []
  string_or_empty (some s) = s

  unfoldable pub node_type : y.Text → Str
  node_type t = string_or_empty (stored_string (y.text_attribute t (codes "__type")))

  unfoldable pub elem_type : y.Element → Str
  elem_type e = string_or_empty (stored_string (y.attribute e (codes "__type")))

  unfoldable pub str_attr : y.Text → Str → Option Str
  str_attr t name = stored_string (y.text_attribute t name)

  -- `node.get_attribute(txn, "__type").is_some()`
  abbrev pub is_typed : Node y → Bool
  is_typed (text t) = is_there (y.text_attribute t (codes "__type"))
  is_typed (element e) = is_there (y.attribute e (codes "__type"))
  is_typed (fragment f) = false

  -- The loop, with `any_child`.
  typed_loop : Bool → List (Node y) → Bool
  typed_loop any_child [] = not any_child
  typed_loop any_child (node ∷ nodes) =
      let rest = typed_loop true nodes in if is_typed node then true else rest

  unfoldable pub is_lexical_shaped : y.Fragment → Bool
  unfolding typed_loop
  is_lexical_shaped f = typed_loop false (y.roots f)

  block_child : Output y → List y.Text
  unfolding node_type is_inline_type
  block_child (y_xml_text child) = if is_inline_type (node_type child) then [] else child ∷ []
  block_child _ = []

  child_type : Output y → List Str
  unfolding node_type elem_type
  child_type (y_xml_text child) = node_type child ∷ []
  child_type (y_xml_element child) = elem_type child ∷ []
  child_type _ = []

  blocks_of : List (Output y × Option (List (Str × Stored y))) → List y.Text
  unfolding block_child
  blocks_of [] = []
  blocks_of ((d, attributes) ∷ diff) = block_child d ++ blocks_of diff

  types_of : List (Output y × Option (List (Str × Stored y))) → List Str
  unfolding child_type
  types_of [] = []
  types_of ((d, attributes) ∷ diff) = child_type d ++ types_of diff

  unfoldable pub block_children : y.Text → List y.Text
  unfolding blocks_of
  block_children t = blocks_of (y.diff t)

  unfoldable pub text_child_types : y.Text → List Str
  unfolding types_of
  text_child_types t = types_of (y.diff t)
