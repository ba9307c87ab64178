-- ===== src/ProseMirror/Block.antt =====
-- Blocks, which are rendered from an explicit stack of work.
pub mod Plan
pub mod WellFormed
pub mod Rendered
pub mod Walk
pub mod Opens
use yrby.Base.{
  ℕ, zero, suc, ◌+◌, ◌-◌, ◌==◌, ltb, if◌then◌else◌, Bool, true, false, not, Option, none, some,
  List, [], ◌∷◌, ◌++◌, map, foldl, reverse, Str, codes, str_eq, is_one_of, get,
}
use yrby.Base.Int.{ℤ, pos, negsuc}
use yrby.Base.Decimal.{show_ℤ}
use yrby.Yrs.{Yrs, Any, Out, any, XmlOut, element, fragment, text, Output, Node}
use yrby.HtmlCore.Segment.{Segments, nil}
use yrby.HtmlCore.Emitter.{
  Render, pure, ◌>>=◌, ◌>>◌, push_str, push, for_each, begin_frame, end_frame, emit_deferred,
  append,
}
use yrby.HtmlCore.Escape.{escape_attr, escape_text}
use yrby.HtmlCore.Template.{
  Content, blocks, inline, no_content, NodeRule, declarative, callback, Rules, xml_ref_attr,
  xml_attrs_json,
}
use yrby.HtmlCore.RuleTag.{push_open_tag, push_template, push_close_tag}
use yrby.HtmlCore.Work.{
  Work, open_node, close, close_owned, end_deferred, push_opens, Opener, open_rule, run_work,
}
use yrby.HtmlCore.Paragraph.{push_paragraph_or}
use yrby.ProseMirror.Arms.{
  Arm, paragraph, heading, code_block, blockquote, bullet_list, ordered_list, list_item, table,
  table_row, table_header, table_cell, horizontal_rule, image, hard_break, unknown, arm,
  heading_digit, or_one, push_ol, push_language,
}
use yrby.ProseMirror.Runs.{render_text_runs}
use yrby.ProseMirror.Inline.{
  str_attr, num_attr, elements, element_children, element_child_types, render_image, render_inline,
  max_depth, rule_node,
}

module _ (y : Yrs) where
  abbrev run_text : Output y → Str
  run_text (any (Any.string s)) = s
  run_text _ = []

  runs_text : {A : Type 0} → List (Output y × A) → Str
  runs_text [] = []
  runs_text ((out, _) ∷ runs) = run_text out ++ runs_text runs

  nodes_text : List (Node y) → Str
  unfolding runs_text
  nodes_text [] = []
  nodes_text (text t ∷ nodes) = runs_text (y.diff t) ++ nodes_text nodes
  nodes_text (_ ∷ nodes) = nodes_text nodes

  unfoldable pub code_text : y.Element → Str
  unfolding nodes_text
  code_text e = nodes_text (y.children e)

  any_element : List (Node y) → Bool
  any_element [] = false
  any_element (element e ∷ nodes) = true
  any_element (_ ∷ nodes) = any_element nodes

  unfoldable pub has_element_child : y.Element → Bool
  unfolding any_element
  has_element_child e = any_element (y.children e)

  -- `for child in element_children(..).into_iter().rev() { stack.push(Work::Open(child, depth + 1)) }`,
  -- which stands behind `if depth < MAX_DEPTH`.
  unfoldable pub push_children : ℕ → y.Element → List (Work y.Element) → List (Work y.Element)
  push_children left e stack = push_opens left (element_children y e) stack

module _ (y : Yrs) (rules : Rules) where
  unfoldable pub stray_text : Node y → Render (Unit {0})
  stray_text (text t) = render_text_runs y rules t
  stray_text _ = pure tt

  unfoldable pub render_stray_text : y.Element → Render (Unit {0})
  render_stray_text e = for_each stray_text (y.children e)

  unfoldable pub push_block_children : Str → Opener y.Element
  push_block_children close_text e left stack = do
    render_stray_text e
    pure (push_children y left e (close close_text ∷ stack))

  unfoldable pub open_container : Str → Str → Opener y.Element
  open_container open_text close_text e left stack = do
    push_str open_text
    push_block_children close_text e left stack

  unfoldable pub open_cell : Str → Str → Opener y.Element
  open_cell tag close_text e left stack = do
    push b'<'
    push_str tag
    push_str (codes " colspan=\"")
    push_str (show_ℤ (or_one (num_attr y e (codes "colspan"))))
    push_str (codes "\" rowspan=\"")
    push_str (show_ℤ (or_one (num_attr y e (codes "rowspan"))))
    push_str (codes "\">")
    push_block_children close_text e left stack

  unfoldable pub open_rule_block : NodeRule → Opener y.Element
  open_rule_block rule e left stack =
      open_rule (rule_node y e) (render_inline y rules max_depth e) (render_stray_text e) left stack
        rule

  unfoldable pub open_arm : Arm → Opener y.Element
  open_arm paragraph e left stack = do
    push_str (codes "<p>")
    render_inline y rules max_depth e
    push_str (codes "</p>")
    pure stack
  open_arm heading e left stack = do
    push_str (codes "<h")
    push (heading_digit (num_attr y e (codes "level")))
    push b'>'
    render_inline y rules max_depth e
    push_str (codes "</h")
    push (heading_digit (num_attr y e (codes "level")))
    push b'>'
    pure stack
  open_arm code_block e left stack = do
    push_str (codes "<pre><code")
    push_language (str_attr y e (codes "language"))
    push b'>'
    push_str (escape_text (code_text y e))
    push_str (codes "</code></pre>")
    pure stack
  open_arm blockquote e left stack =
      open_container (codes "<blockquote>") (codes "</blockquote>") e left stack
  open_arm bullet_list e left stack = open_container (codes "<ul>") (codes "</ul>") e left stack
  open_arm ordered_list e left stack = do
    push_ol (num_attr y e (codes "start"))
    push_block_children (codes "</ol>") e left stack
  open_arm list_item e left stack = open_container (codes "<li>") (codes "</li>") e left stack
  open_arm table e left stack = do
    push_str (codes "<table><tbody>")
    push_block_children (codes "</tbody></table>") e left stack
  open_arm table_row e left stack = open_container (codes "<tr>") (codes "</tr>") e left stack
  open_arm table_header e left stack = open_cell (codes "th") (codes "</th>") e left stack
  open_arm table_cell e left stack = open_cell (codes "td") (codes "</td>") e left stack
  open_arm horizontal_rule e left stack = do push_str (codes "<hr>"); pure stack
  open_arm image e left stack = do render_image y e; pure stack
  open_arm hard_break e left stack = do push_str (codes "<br>"); pure stack
  open_arm unknown e left stack =
      if has_element_child y e then push_block_children [] e left stack else (do
        begin_frame
        render_inline y rules max_depth e
        captured ← end_frame
        push_paragraph_or [] captured
        pure stack)

  abbrev open_by : Option NodeRule → Opener y.Element
  open_by (some rule) e = open_rule_block rule e
  open_by none e = open_arm (arm (y.tag e)) e

  unfoldable pub open_block : Opener y.Element
  open_block e = open_by (get rules.nodes (y.tag e)) e

  -- `while let Some(work) = stack.pop()`
  unfoldable pub walk : ℕ → List (Work y.Element) → Render (Unit {0})
  walk = run_work open_block
