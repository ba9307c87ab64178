-- ===== src/ProseMirror/Block/Opens.antt =====
-- `open_block` carries out its block's plan.
use yrby.Base.{ℕ, Option, none, some, List, [], ◌∷◌, ◌++◌, Str, codes, get, ◌==◌}
use yrby.Base.Int.{ℤ, pos, negsuc}
use yrby.Base.Decimal.{show_ℤ}
use yrby.Yrs.{Yrs, element, fragment, text, Node}
use yrby.HtmlCore.Segment.Tokens.{chars}
use yrby.HtmlCore.Emitter.{Render}
use yrby.HtmlCore.Emitter.Emits.{
  Emits, Writes, Emits-pure, Emits-push_str, Emits-push, Emits-frame, Emits-for_each, Emits-if, seq,
  ending,
}
use yrby.HtmlCore.Escape.{escape_attr}
use yrby.HtmlCore.Template.{NodeRule, Rules}
use yrby.HtmlCore.Paragraph.{Writes-push_paragraph_or}
use yrby.ProseMirror.Runs.Tokens.{Writes-render_text_runs}
use yrby.ProseMirror.Inline.{num_attr, max_depth, render_inline, element_children, rule_node}
use yrby.ProseMirror.Inline.Tokens.{Writes-render_image, Writes-render_inline}
use yrby.ProseMirror.Arms.{
  Arm, paragraph, heading, code_block, blockquote, bullet_list, ordered_list, list_item, table,
  table_row, table_header, table_cell, horizontal_rule, image, hard_break, unknown, arm, push_ol,
  push_language,
}
use yrby.HtmlCore.Work.{Work, close}
use yrby.HtmlCore.Work.Plan.{Plan, Opens, if-Opens}
use yrby.HtmlCore.Work.Rule.{open_rule-Opens}
use yrby.ProseMirror.Block.{
  has_element_child, push_children, stray_text, render_stray_text, push_block_children,
  open_container, open_cell, open_rule_block, open_arm, open_by, open_block,
}
use yrby.ProseMirror.Block.Plan.{
  ol_tokens, language_tokens, stray_token, stray_tokens, inline_of, cell_head, plan_arm, plan_by,
  plan,
}

Writes-push_ol : (o : Option ℤ) → Writes (push_ol o) (ol_tokens o)
Writes-push_ol none = Emits-push_str (codes "<ol>")
Writes-push_ol (some (pos n)) = Emits-if (n == 1) _ _ tt _ _ (Emits-push_str (codes "<ol>")) (
    seq (Emits-push_str (codes "<ol start=\""))
      (seq (Emits-push_str (show_ℤ (pos n))) (Emits-push_str (codes "\">"))))
Writes-push_ol (some (negsuc n)) =
    seq (Emits-push_str (codes "<ol start=\""))
      (seq (Emits-push_str (show_ℤ (negsuc n))) (Emits-push_str (codes "\">")))

Writes-push_language : (o : Option Str) → Writes (push_language o) (language_tokens o)
Writes-push_language none = Emits-pure tt
Writes-push_language (some []) = Emits-pure tt
Writes-push_language (some (c ∷ lang)) =
    seq (Emits-push_str (codes " class=\"language-"))
      (seq (Emits-push_str (escape_attr (c ∷ lang))) (Emits-push b'"'))

module _ (y : Yrs) (rules : Rules) where
  Writes-stray_text : (node : Node y) → Writes (stray_text y rules node) (stray_token y rules node)
  unfolding stray_text
  Writes-stray_text (text t) = Writes-render_text_runs y rules t
  Writes-stray_text (element _) = Emits-pure tt
  Writes-stray_text (fragment _) = Emits-pure tt

  Writes-render_stray_text :
      (e : y.Element) → Writes (render_stray_text y rules e) (stray_tokens y rules e)
  unfolding render_stray_text
  Writes-render_stray_text e =
      Emits-for_each (stray_text y rules) (stray_token y rules) (y.children e) Writes-stray_text

  module _ (e : y.Element) (left : ℕ) (stack : List (Work y.Element)) where
    abbrev OpensBy : Plan → Render (List (Work y.Element)) → Type 0
    OpensBy p m = Opens (element_children y e) left stack p m

    Emits-push_block_children :
        (t : Str)
        → Emits
            (push_block_children y rules t e left stack)
            (push_children y left e (close t ∷ stack))
            (stray_tokens y rules e)
    unfolding push_block_children push_children
    Emits-push_block_children t = ending _ (Writes-render_stray_text e)

    Emits-open_container :
        (o t : Str)
        → Emits
            (open_container y rules o t e left stack)
            (push_children y left e (close t ∷ stack))
            (chars o ++ stray_tokens y rules e)
    unfolding open_container
    Emits-open_container o t = seq (Emits-push_str o) (Emits-push_block_children t)

    Emits-open_cell :
        (tag t : Str)
        → Emits
            (open_cell y rules tag t e left stack)
            (push_children y left e (close t ∷ stack))
            (cell_head y rules tag e)
    unfolding open_cell
    Emits-open_cell tag t = seq (Emits-push b'<') (
        seq (Emits-push_str tag) (
          seq (Emits-push_str (codes " colspan=\"")) (
            seq (Emits-push_str _) (
              seq (Emits-push_str (codes "\" rowspan=\"")) (
                seq (Emits-push_str _)
                  (seq (Emits-push_str (codes "\">")) (Emits-push_block_children t)))))))

    open_arm-Opens : (a : Arm) → OpensBy (plan_arm y rules a e) (open_arm y rules a e left stack)
    unfolding open_arm plan_arm push_children
    open_arm-Opens paragraph = seq (Emits-push_str (codes "<p>")) (
        seq (Writes-render_inline y rules max_depth e)
          (ending stack (Emits-push_str (codes "</p>"))))
    open_arm-Opens heading = seq (Emits-push_str (codes "<h")) (
        seq (Emits-push _) (
          seq (Emits-push b'>') (
            seq (Writes-render_inline y rules max_depth e) (
              seq (Emits-push_str (codes "</h"))
                (seq (Emits-push _) (ending stack (Emits-push b'>')))))))
    open_arm-Opens code_block = seq (Emits-push_str (codes "<pre><code")) (
        seq (Writes-push_language _) (
          seq (Emits-push b'>')
            (seq (Emits-push_str _) (ending stack (Emits-push_str (codes "</code></pre>"))))))
    open_arm-Opens blockquote = Emits-open_container (codes "<blockquote>") (codes "</blockquote>")
    open_arm-Opens bullet_list = Emits-open_container (codes "<ul>") (codes "</ul>")
    open_arm-Opens ordered_list =
        seq (Writes-push_ol (num_attr y e (codes "start")))
          (Emits-push_block_children (codes "</ol>"))
    open_arm-Opens list_item = Emits-open_container (codes "<li>") (codes "</li>")
    open_arm-Opens table =
        seq (Emits-push_str (codes "<table><tbody>"))
          (Emits-push_block_children (codes "</tbody></table>"))
    open_arm-Opens table_row = Emits-open_container (codes "<tr>") (codes "</tr>")
    open_arm-Opens table_header = Emits-open_cell (codes "th") (codes "</th>")
    open_arm-Opens table_cell = Emits-open_cell (codes "td") (codes "</td>")
    open_arm-Opens horizontal_rule = ending stack (Emits-push_str (codes "<hr>"))
    open_arm-Opens image = ending stack (Writes-render_image y e)
    open_arm-Opens hard_break = ending stack (Emits-push_str (codes "<br>"))
    open_arm-Opens unknown =
        if-Opens (element_children y e) left stack (has_element_child y e) _ _ _ _
          (Emits-push_block_children [])
          (Emits-frame (render_inline y rules max_depth e) _ stack (inline_of y rules e) _
            (Writes-render_inline y rules max_depth e)
            (ending stack (Writes-push_paragraph_or [] (inline_of y rules e))))

    by-Opens :
        (rule : Option NodeRule)
        → OpensBy (plan_by y rules rule e) (open_by y rules rule e left stack)
    unfolding open_rule_block
    by-Opens none = open_arm-Opens (arm (y.tag e))
    by-Opens (some rule) =
        open_rule-Opens (rule_node y e) _ _ _ _ (Writes-render_inline y rules max_depth e)
          (Writes-render_stray_text e) left stack rule

    pub open_block-Opens : OpensBy (plan y rules e) (open_block y rules e left stack)
    unfolding open_block plan
    open_block-Opens = by-Opens (get rules.nodes (y.tag e))
