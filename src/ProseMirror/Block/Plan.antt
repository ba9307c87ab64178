-- ===== src/ProseMirror/Block/Plan.antt =====
-- What opening a block of a ProseMirror document does.
use yrby.Base.{
  ℕ, if◌then◌else◌, false, Option, none, some, List, [], ◌∷◌, ◌++◌, Str, codes, get, concat_map,
  ◌==◌,
}
use yrby.Base.Int.{ℤ, pos, negsuc}
use yrby.Base.Decimal.{show_ℤ}
use yrby.Yrs.{Yrs, text, Node}
use yrby.HtmlCore.Segment.Tokens.{Tok, chars}
use yrby.HtmlCore.Escape.{escape_text, escape_attr}
use yrby.HtmlCore.Template.{NodeRule, Rules}
use yrby.HtmlCore.Work.Plan.{Plan, leaf, container, tree_kids, tree_tokens, tree_cost}
use yrby.HtmlCore.Work.Rule.{rule_plan}
use yrby.HtmlCore.Paragraph.{paragraph_tokens}
use yrby.ProseMirror.Runs.Tokens.{run_tokens}
use yrby.ProseMirror.Inline.{str_attr, num_attr, element_children, max_depth, rule_node}
use yrby.ProseMirror.Inline.Tokens.{image_text, inline_tokens}
use yrby.ProseMirror.Arms.{
  Arm, paragraph, heading, code_block, blockquote, bullet_list, ordered_list, list_item, table,
  table_row, table_header, table_cell, horizontal_rule, image, hard_break, unknown, arm,
  heading_digit, or_one,
}
use yrby.ProseMirror.Block.{code_text, has_element_child}

abbrev pub ol_tokens : Option ℤ → List Tok
ol_tokens none = chars (codes "<ol>")
ol_tokens (some (pos n)) =
    if n == 1
    then chars (codes "<ol>")
    else chars (codes "<ol start=\"") ++ (chars (show_ℤ (pos n)) ++ chars (codes "\">"))
ol_tokens (some (negsuc n)) =
    chars (codes "<ol start=\"") ++ (chars (show_ℤ (negsuc n)) ++ chars (codes "\">"))

abbrev pub language_tokens : Option Str → List Tok
language_tokens none = []
language_tokens (some []) = []
language_tokens (some (c ∷ lang)) =
    chars (codes " class=\"language-") ++ (chars (escape_attr (c ∷ lang)) ++ chars (codes "\""))

module _ (y : Yrs) (rules : Rules) where
  abbrev pub stray_token : Node y → List Tok
  stray_token (text t) = run_tokens y rules t
  stray_token _ = []

  abbrev pub stray_tokens : y.Element → List Tok
  stray_tokens e = concat_map stray_token (y.children e)

  abbrev pub inline_of : y.Element → List Tok
  inline_of = inline_tokens y rules max_depth

  abbrev pub cell_head : Str → y.Element → List Tok
  cell_head tag e =
      chars (codes "<")
      ++ (chars tag
          ++ (chars (codes " colspan=\"")
              ++ (chars (show_ℤ (or_one (num_attr y e (codes "colspan"))))
                  ++ (chars (codes "\" rowspan=\"")
                      ++ (chars (show_ℤ (or_one (num_attr y e (codes "rowspan"))))
                          ++ (chars (codes "\">") ++ stray_tokens e))))))

  abbrev pub heading_tokens : ℕ → y.Element → List Tok
  heading_tokens digit e =
      chars (codes "<h")
      ++ (chars (digit ∷ [])
          ++ (chars (codes ">")
              ++ (inline_of e
                  ++ (chars (codes "</h") ++ (chars (digit ∷ []) ++ chars (codes ">"))))))

  unfoldable pub plan_arm : Arm → y.Element → Plan
  plan_arm paragraph e = leaf (chars (codes "<p>") ++ (inline_of e ++ chars (codes "</p>")))
  plan_arm heading e = leaf (heading_tokens (heading_digit (num_attr y e (codes "level"))) e)
  plan_arm code_block e = leaf (
      chars (codes "<pre><code")
      ++ (language_tokens (str_attr y e (codes "language"))
          ++ (chars (codes ">")
              ++ (chars (escape_text (code_text y e)) ++ chars (codes "</code></pre>")))))
  plan_arm blockquote e =
      container (chars (codes "<blockquote>") ++ stray_tokens e) false (codes "</blockquote>")
  plan_arm bullet_list e = container (chars (codes "<ul>") ++ stray_tokens e) false (codes "</ul>")
  plan_arm ordered_list e =
      container (ol_tokens (num_attr y e (codes "start")) ++ stray_tokens e) false (codes "</ol>")
  plan_arm list_item e = container (chars (codes "<li>") ++ stray_tokens e) false (codes "</li>")
  plan_arm table e =
      container (chars (codes "<table><tbody>") ++ stray_tokens e) false (codes "</tbody></table>")
  plan_arm table_row e = container (chars (codes "<tr>") ++ stray_tokens e) false (codes "</tr>")
  plan_arm table_header e = container (cell_head (codes "th") e) false (codes "</th>")
  plan_arm table_cell e = container (cell_head (codes "td") e) false (codes "</td>")
  plan_arm horizontal_rule e = leaf (chars (codes "<hr>"))
  plan_arm image e = leaf (chars (image_text (str_attr y e)))
  plan_arm hard_break e = leaf (chars (codes "<br>"))
  plan_arm unknown e =
      if has_element_child y e
      then container (stray_tokens e) false []
      else leaf (paragraph_tokens [] (inline_of e))

  abbrev pub plan_by : Option NodeRule → y.Element → Plan
  plan_by (some rule) e = rule_plan (rule_node y e) (inline_of e) (stray_tokens e) rule
  plan_by none e = plan_arm (arm (y.tag e)) e

  unfoldable pub plan : y.Element → Plan
  plan e = plan_by (get rules.nodes (y.tag e)) e

  -- A node's children, where `left` levels more may be entered.
  abbrev pub kids_tokens : ℕ → y.Element → List Tok
  kids_tokens left e = tree_kids (element_children y) plan left e

  -- A block and everything under it.
  abbrev pub block_tokens : ℕ → y.Element → List Tok
  block_tokens left e = tree_tokens (element_children y) plan left e

  -- Rounds that are enough for a node's children: two for each node that is entered.
  abbrev pub kids_cost : ℕ → y.Element → ℕ
  kids_cost left e = tree_cost (element_children y) left e
