-- ===== src/Lexical/Block/Plan.antt =====
-- What opening a block of a Lexical document does.
use yrby.Base.{
  ℕ, if◌then◌else◌, Bool, true, false, Option, none, some, List, [], ◌∷◌, ◌++◌, Str, codes, get,
  keep,
}
use yrby.Base.Decimal.{show_ℤ}
use yrby.Yrs.{Yrs}
use yrby.HtmlCore.Segment.Tokens.{Tok, chars}
use yrby.HtmlCore.Template.{NodeRule, Rules}
use yrby.HtmlCore.Markup.{open_tag, close_tag}
use yrby.HtmlCore.Markup.Build.{attr_text}
use yrby.HtmlCore.Work.Plan.{Plan, leaf, container, tree_tokens, tree_cost}
use yrby.HtmlCore.Work.Rule.{rule_plan}
use yrby.HtmlCore.Paragraph.{paragraph_tokens}
use yrby.Lexical.Nodes.{node_type, str_attr, block_children}
use yrby.Lexical.Inline.{max_inline_depth, text_node}
use yrby.Lexical.Inline.Tokens.{inline_tokens}
use yrby.Lexical.Block.{
  Arm, paragraph, heading, quote, code, list, listitem, table, tablerow, tablecell, unknown, arm,
  heading_tag, is_ordered, list_tag, item_value, item_checked, is_header, cell_tag, is_list,
  has_any,
}

abbrev pub language_text : Option Str → Str
language_text none = []
language_text (some []) = []
language_text (some (c ∷ lang)) = attr_text (codes "data-language") (c ∷ lang)

abbrev pub truth : Bool → Str
truth c = if c then codes "true" else codes "false"

abbrev pub checked_text : Option Bool → Str
checked_text none = []
checked_text (some c) = codes " aria-checked=\"" ++ (truth c ++ codes "\"")

abbrev pub item_text : Option Bool → Str → Str
item_text checked value = checked_text checked ++ (codes " value=\"" ++ (value ++ codes "\""))

abbrev pub element_tokens : Str → Str → List Tok → List Tok
element_tokens tag attrs body = chars (open_tag tag attrs) ++ (body ++ chars (close_tag tag))

module _ (y : Yrs) (rules : Rules) where
  abbrev pub inline_of : Bool → y.Text → List Tok
  inline_of = inline_tokens y rules max_inline_depth

  -- An element around a block's inline content and its block children.
  abbrev pub holder : Str → Str → Bool → y.Text → Plan
  holder tag attrs ruled t =
      container (chars (open_tag tag attrs) ++ inline_of ruled t) false (close_tag tag)

  unfoldable pub plan_arm : Arm → y.Text → Plan
  plan_arm paragraph t = leaf (paragraph_tokens (codes "<p><br></p>") (inline_of true t))
  plan_arm heading t =
      leaf (element_tokens (heading_tag (str_attr y t (codes "__tag"))) [] (inline_of true t))
  plan_arm quote t = leaf (element_tokens (codes "blockquote") [] (inline_of true t))
  plan_arm code t = leaf (
      element_tokens (codes "pre") (language_text (str_attr y t (codes "__language")))
        (inline_of true t))
  plan_arm list t = holder (list_tag (is_ordered (str_attr y t (codes "__tag")))) [] false t
  plan_arm listitem t =
      holder (codes "li")
        (item_text (item_checked y (y.text_attribute t (codes "__checked")))
          (show_ℤ (item_value y (y.text_attribute t (codes "__value")))))
        true t
  plan_arm table t =
      container (chars (codes "<table><tbody>") ++ inline_of false t) false
        (codes "</tbody></table>")
  plan_arm tablerow t = holder (codes "tr") [] false t
  plan_arm tablecell t =
      holder (cell_tag y (is_header y (y.text_attribute t (codes "__headerState")))) [] false t
  plan_arm unknown t =
      if has_any y (block_children y t)
      then container (inline_of false t) false []
      else leaf (paragraph_tokens [] (inline_of true t))

  abbrev pub plan_by : Option NodeRule → y.Text → Plan
  plan_by (some rule) t = rule_plan (text_node y t) (inline_of true t) (inline_of false t) rule
  plan_by none t = plan_arm (arm (node_type y t)) t

  unfoldable pub plan : y.Text → Plan
  plan t = plan_by (get rules.nodes (node_type y t)) t

  -- The children that are pushed: of a list item, the nested lists.
  abbrev pub arm_children : Arm → y.Text → List y.Text
  arm_children listitem t = keep (is_list y) (block_children y t)
  arm_children _ t = block_children y t

  abbrev pub children_by : Option NodeRule → y.Text → List y.Text
  children_by (some rule) t = block_children y t
  children_by none t = arm_children (arm (node_type y t)) t

  unfoldable pub pushed_children : y.Text → List y.Text
  pushed_children t = children_by (get rules.nodes (node_type y t)) t

  -- A block and everything under it.
  abbrev pub block_tokens : ℕ → y.Text → List Tok
  block_tokens left t = tree_tokens pushed_children plan left t

  -- Rounds that are enough for a node's children: two for each node that is entered.
  abbrev pub kids_cost : ℕ → y.Text → ℕ
  kids_cost left t = tree_cost pushed_children left t
