-- ===== src/ProseMirror/Inline.antt =====
-- Inline content: text runs, hard breaks, images, and rule nodes in inline position.
pub mod Tokens
pub mod WellFormed
use yrby.Base.{
  ℕ, zero, suc, if◌then◌else◌, Bool, true, false, Option, none, some, List, [], ◌∷◌, ◌++◌, map, Str,
  codes, str_eq, is_one_of, get, ◌||◌,
}
use yrby.Base.Int.{ℤ}
use yrby.Yrs.{Yrs, Number, int, float, Any, Out, any, XmlOut, element, fragment, text, Output, Node}
use yrby.HtmlCore.Segment.{Segments}
use yrby.HtmlCore.Emitter.{
  Render, pure, ◌>>=◌, ◌>>◌, push_str, push, for_each, begin_frame, end_frame, emit_deferred,
}
use yrby.HtmlCore.Escape.{escape_attr}
use yrby.HtmlCore.Template.{
  Content, blocks, inline, no_content, NodeRule, declarative, callback, Rules, xml_ref_attr,
  xml_attrs_json,
}
use yrby.HtmlCore.Work.{RuleNode, inline_rule}
use yrby.ProseMirror.Runs.{render_text_runs}

-- `MAX_DEPTH`
abbrev pub max_depth : ℕ
max_depth = 1024

abbrev pub image_attrs : List Str
image_attrs = codes "src" ∷ codes "alt" ∷ codes "title" ∷ []

module _ (y : Yrs) where
  abbrev string_of : Option (Output y) → Option Str
  string_of (some (any (Any.string s))) = some s
  string_of _ = none

  unfoldable pub str_attr : y.Element → Str → Option Str
  str_attr e name = string_of (y.attribute e name)

  abbrev integer_of : Option (Output y) → Option ℤ
  integer_of (some (any (Any.number (int n)))) = some n
  integer_of (some (any (Any.number (float n)))) = some (y.to_i64 n)
  integer_of _ = none

  unfoldable pub num_attr : y.Element → Str → Option ℤ
  num_attr e name = integer_of (y.attribute e name)

  unfoldable pub elements : List (Node y) → List y.Element
  elements [] = []
  elements (element e ∷ nodes) = e ∷ elements nodes
  elements (_ ∷ nodes) = elements nodes

  unfoldable pub element_children : y.Element → List y.Element
  unfolding elements
  element_children e = elements (y.children e)

  unfoldable pub element_child_types : y.Element → List Str
  unfolding element_children
  element_child_types e = map y.tag (element_children e)

  abbrev push_image_attr : Str → Option Str → Render (Unit {0})
  push_image_attr name none = pure tt
  push_image_attr name (some v) = do
    push b' '
    push_str name
    push_str (codes "=\"")
    push_str (escape_attr v)
    push b'"'

  unfoldable pub render_image : y.Element → Render (Unit {0})
  render_image e = do
    push_str (codes "<img")
    for_each (λ name. push_image_attr name (str_attr e name)) image_attrs
    push b'>'

  -- What a rule reads of an element.
  abbrev pub rule_node : y.Element → RuleNode y.Element
  rule_node e = record {
    node_type = y.tag e;
    attrs_json = xml_attrs_json y (y.attributes e);
    child_types = element_child_types e;
    lookup = xml_ref_attr y (y.attribute e);
    children = element_children e;
  }

module _ (y : Yrs) (rules : Rules) where
  -- `deeper` is `if depth < MAX_DEPTH { render_inline(txn, e, depth + 1, em, rules) }`.
  unfoldable pub render_rule_inline : Render (Unit {0}) → y.Element → NodeRule → Render (Unit {0})
  render_rule_inline deeper e rule = inline_rule (rule_node y e) deeper rule

  -- An element child, `deeper` being the guarded recursive call on it.
  abbrev inline_element : Render (Unit {0}) → y.Element → Option NodeRule → Render (Unit {0})
  inline_element deeper child (some rule) = render_rule_inline deeper child rule
  inline_element deeper child none =
      if is_one_of (codes "hardBreak" ∷ codes "hard_break" ∷ []) (y.tag child)
      then push_str (codes "<br>")
      else if str_eq (codes "image") (y.tag child)
      then render_image y child
      else deeper

  unfoldable pub inline_node : (y.Element → Render (Unit {0})) → Node y → Render (Unit {0})
  inline_node deeper (text t) = render_text_runs y rules t
  inline_node deeper (element child) =
      inline_element (deeper child) child (get rules.nodes (y.tag child))
  inline_node deeper (fragment f) = pure tt

  -- `left` is `MAX_DEPTH - depth`, the levels that may still be entered.
  unfoldable pub render_inline : ℕ → y.Element → Render (Unit {0})
  render_inline zero e = for_each (inline_node (λ _. pure tt)) (y.children e)
  render_inline (suc left) e = for_each (inline_node (render_inline left)) (y.children e)
