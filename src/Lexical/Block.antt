-- ===== src/Lexical/Block.antt =====
-- Blocks, which are rendered from an explicit stack of work.
pub mod Plan
pub mod Pushed
pub mod Opens
pub mod WellFormed
use yrby.Base.{
  ℕ, zero, suc, ltb, if◌then◌else◌, Bool, true, false, not, ◌&&◌, Option, none, some, List, [], ◌∷◌,
  ◌++◌, foldl, reverse, Str, codes, str_eq, is_one_of, get,
}
use yrby.Base.Int.{ℤ, pos, negsuc}
use yrby.Base.Decimal.{show_ℤ}
use yrby.Yrs.{Yrs, Number, int, float, Any, Out, any, Output}
use yrby.HtmlCore.Emitter.{Render, pure, ◌>>=◌, ◌>>◌, push_str, push, begin_frame, end_frame}
use yrby.HtmlCore.Escape.{escape_attr}
use yrby.HtmlCore.Template.{NodeRule, Rules}
use yrby.HtmlCore.Work.{Work, open_node, close, Opener, open_rule, run_work}
use yrby.HtmlCore.Paragraph.{push_paragraph_or}
use yrby.Lexical.Nodes.{node_type, str_attr, block_children}
use yrby.Lexical.Inline.{max_inline_depth, text_node, render_inline}

-- `MAX_BLOCK_DEPTH`
abbrev pub max_block_depth : ℕ
max_block_depth = 1024

-- The arms of the match on a block's type.
pub data Arm : Type 0 where
  paragraph heading quote code list listitem table tablerow tablecell unknown : Arm

abbrev typed_arm : Str → List (Str × Arm) → Arm
typed_arm ty [] = unknown
typed_arm ty ((name, a) ∷ arms) = if str_eq name ty then a else typed_arm ty arms

unfoldable pub arm : Str → Arm
arm ty = typed_arm ty (
    (codes "paragraph", paragraph)
    ∷ (codes "heading", heading)
    ∷ (codes "quote", quote)
    ∷ (codes "code", code)
    ∷ (codes "list", list)
    ∷ (codes "listitem", listitem)
    ∷ (codes "table", table)
    ∷ (codes "tablerow", tablerow)
    ∷ (codes "tablecell", tablecell)
    ∷ [])

abbrev pub heading_tags : List Str
heading_tags = codes "h1" ∷ codes "h2" ∷ codes "h3" ∷ codes "h4" ∷ codes "h5" ∷ codes "h6" ∷ []

unfoldable pub heading_tag : Option Str → Str
heading_tag none = codes "h1"
heading_tag (some tag) = if is_one_of heading_tags tag then tag else codes "h1"

abbrev pub is_ordered : Option Str → Bool
is_ordered none = false
is_ordered (some tag) = str_eq tag (codes "ol")

abbrev pub list_tag : Bool → Str
list_tag ordered = if ordered then codes "ol" else codes "ul"

-- `.filter(|l| !l.is_empty())`
abbrev push_language : Option Str → Render (Unit {0})
push_language none = pure tt
push_language (some []) = pure tt
push_language (some (c ∷ lang)) = do
  push_str (codes " data-language=\"")
  push_str (escape_attr (c ∷ lang))
  push b'"'

abbrev push_checked : Option Bool → Render (Unit {0})
push_checked none = pure tt
push_checked (some c) = do
  push_str (codes " aria-checked=\"")
  push_str (if c then codes "true" else codes "false")
  push b'"'

module _ (y : Yrs) where
  unfoldable pub item_value : Option (Output y) → ℤ
  item_value (some (any (Any.number (int n)))) = n
  item_value (some (any (Any.number (float n)))) = y.to_i64 n
  item_value _ = pos 1

  unfoldable pub item_checked : Option (Output y) → Option Bool
  item_checked (some (any (Any.bool b))) = some b
  item_checked _ = none

  abbrev is_above_zero : ℤ → Bool
  is_above_zero (pos n) = ltb 0 n
  is_above_zero (negsuc n) = false

  unfoldable pub is_header : Option (Output y) → Bool
  is_header (some (any (Any.number (int n)))) = is_above_zero n
  is_header (some (any (Any.number (float n)))) = y.is_positive n
  is_header _ = false

  abbrev pub cell_tag : Bool → Str
  cell_tag header = if header then codes "th" else codes "td"

  abbrev pub is_list : y.Text → Bool
  is_list child = str_eq (node_type y child) (codes "list")

  -- `!block_children(txn, t).is_empty()`
  abbrev pub has_any : List y.Text → Bool
  has_any [] = false
  has_any (child ∷ children) = true

  -- One turn of the loop: `continue` where only lists are kept.
  abbrev push_child : Bool → ℕ → List (Work y.Text) → y.Text → List (Work y.Text)
  push_child only_lists left stack child =
      if only_lists && not (is_list child) then stack else open_node child left ∷ stack

  -- `left` is `MAX_BLOCK_DEPTH - depth`.
  unfoldable pub push_block_children :
      y.Text → ℕ → Str → Bool → List (Work y.Text) → List (Work y.Text)
  push_block_children t zero close_text only_lists stack = close close_text ∷ stack
  push_block_children t (suc left) close_text only_lists stack =
      foldl (push_child only_lists left) (close close_text ∷ stack) (reverse (block_children y t))

module _ (y : Yrs) (rules : Rules) where
  -- `render_inline(txn, t, 0, ruled_inline, em, rules)`
  abbrev pub inline_content : Bool → y.Text → Render (Unit {0})
  inline_content = render_inline y rules max_inline_depth

  unfoldable pub open_rule_block : NodeRule → Opener y.Text
  open_rule_block rule t left stack =
      open_rule (text_node y t) (inline_content true t) (inline_content false t) left stack rule

  unfoldable pub open_listitem : Opener y.Text
  open_listitem t left stack = do
    push_str (codes "<li")
    push_checked (item_checked y (y.text_attribute t (codes "__checked")))
    push_str (codes " value=\"")
    push_str (show_ℤ (item_value y (y.text_attribute t (codes "__value"))))
    push b'"'
    push b'>'
    inline_content true t
    pure (push_block_children y t left (codes "</li>") true stack)

  -- The inline content, and the block children with a closing text behind them.
  abbrev then_children : Str → Opener y.Text
  then_children close_text t left stack = do
    inline_content false t
    pure (push_block_children y t left close_text false stack)

  -- A leaf whose inline content is captured, and rendered in a `<p>`.
  abbrev in_paragraph : Str → Opener y.Text
  in_paragraph empty t left stack = do
    begin_frame
    inline_content true t
    captured ← end_frame
    push_paragraph_or empty captured
    pure stack

  unfoldable pub open_arm : Arm → Opener y.Text
  open_arm paragraph t left stack = in_paragraph (codes "<p><br></p>") t left stack
  open_arm heading t left stack = do
    push b'<'
    push_str (heading_tag (str_attr y t (codes "__tag")))
    push b'>'
    inline_content true t
    push_str (codes "</")
    push_str (heading_tag (str_attr y t (codes "__tag")))
    push b'>'
    pure stack
  open_arm quote t left stack = do
    push_str (codes "<blockquote>")
    inline_content true t
    push_str (codes "</blockquote>")
    pure stack
  open_arm code t left stack = do
    push_str (codes "<pre")
    push_language (str_attr y t (codes "__language"))
    push b'>'
    inline_content true t
    push_str (codes "</pre>")
    pure stack
  open_arm list t left stack =
      let tag = list_tag (is_ordered (str_attr y t (codes "__tag"))) in
      push b'<'
      >> (push_str tag
          >> (push b'>' >> then_children (codes "</" ++ (tag ++ codes ">")) t left stack))
  open_arm listitem t left stack = open_listitem t left stack
  open_arm table t left stack = do
    push_str (codes "<table><tbody>")
    then_children (codes "</tbody></table>") t left stack
  open_arm tablerow t left stack = do
    push_str (codes "<tr>")
    then_children (codes "</tr>") t left stack
  open_arm tablecell t left stack =
      let tag = cell_tag y (is_header y (y.text_attribute t (codes "__headerState"))) in
      push_str (codes "<" ++ (tag ++ codes ">"))
      >> then_children (codes "</" ++ (tag ++ codes ">")) t left stack
  open_arm unknown t left stack =
      if has_any y (block_children y t)
      then then_children [] t left stack
      else in_paragraph [] t left stack

  abbrev open_by : Option NodeRule → Opener y.Text
  open_by (some rule) t = open_rule_block rule t
  open_by none t = open_arm (arm (node_type y t)) t

  unfoldable pub open_block : Opener y.Text
  open_block t = open_by (get rules.nodes (node_type y t)) t

  -- `while let Some(work) = stack.pop()`
  unfoldable pub walk : ℕ → List (Work y.Text) → Render (Unit {0})
  walk = run_work open_block
