-- ===== src/Lexical/Document/Plain.antt =====
-- Without rules, no callback node is emitted, so that `render` never panics.
use yrby.Base.{
  ℕ, zero, suc, sym, subst, Bool, true, false, not, ◌&&◌, Option, none, some, List, [], ◌∷◌, ◌++◌,
  Str, codes, get, str_eq,
}
use yrby.Base.Decimal.{show_ℤ}
use yrby.Yrs.{
  Yrs, Stored, Any, any, y_map, y_xml_element, y_xml_text, other, element, fragment, text, Output,
  Node,
}
use yrby.HtmlCore.Segment.Tokens.{Tok, chars}
use yrby.HtmlCore.Escape.{escape_text}
use yrby.HtmlCore.Template.{empty_rules}
use yrby.HtmlCore.Markup.{open_tag, close_tag}
use yrby.HtmlCore.Markup.Named.{empty_rules-IsNamed}
use yrby.HtmlCore.Outcome.{html_of}
use yrby.HtmlCore.Plain.{
  IsPlain, IsPlain-chars, IsPlain-append, then_chars, IsPlain-concat_map, IsPlain-if, around,
  PlainPlan, if-PlainPlan, IsPlain-paragraph_tokens, IsPlain-tree_tokens, IsRendered,
  declined-IsRendered,
}
use yrby.Lexical.Run.{render_run}
use yrby.Lexical.Nodes.{
  is_builtin, is_inline_type, is_lexical_shaped, node_type, elem_type, block_children, str_attr,
}
use yrby.Lexical.Inline.{RunState, start, map_type, max_inline_depth}
use yrby.Lexical.Inline.Tokens.{
  DeeperTokens, tokens_or, link_attrs, link_tokens, decorator_tokens, child_tokens, piece_tokens,
  state_after, pieces_tokens, inline_tokens,
}
use yrby.Lexical.Block.{
  Arm, paragraph, heading, quote, code, list, listitem, table, tablerow, tablecell, unknown, arm,
  heading_tag, is_ordered, list_tag, item_value, item_checked, is_header, cell_tag, has_any,
  max_block_depth,
}
use yrby.Lexical.Block.Plan.{
  language_text, item_text, inline_of, holder, plan_arm, plan, pushed_children, element_tokens,
}
use yrby.Lexical.Document.{render}
use yrby.Lexical.Document.Rendering.{
  root_tokens, document_tokens, document_tokens-Markup, lexical-document_tokens,
}

module _ (y : Yrs) where
  abbrev AllPlain : DeeperTokens y → Type 0
  AllPlain none = Unit
  AllPlain (some g) = (t : y.Text) → IsPlain (g t)

  IsPlain-tokens_or :
      (ts : List Tok) (g : DeeperTokens y) (t : y.Text)
      → IsPlain ts
      → AllPlain g
      → IsPlain (tokens_or y ts g t)
  IsPlain-tokens_or ts none t h k = h
  IsPlain-tokens_or ts (some g) t h k = k t

  IsPlain-link_tokens : (g : DeeperTokens y) (t : y.Text) → AllPlain g → IsPlain (link_tokens y g t)
  unfolding link_tokens
  IsPlain-link_tokens g t h =
      around (chars (open_tag (codes "a") (link_attrs y t))) _ (close_tag (codes "a"))
        (IsPlain-chars (open_tag (codes "a") (link_attrs y t)))
        (IsPlain-tokens_or (chars (escape_text (y.text_string t))) g t
          (IsPlain-chars (escape_text (y.text_string t))) h)

  IsPlain-decorator : (e : y.Element) → IsPlain (decorator_tokens y empty_rules e)
  unfolding decorator_tokens get
  IsPlain-decorator e =
      IsPlain-if (str_eq (codes "horizontalrule") (elem_type y e)) (chars (codes "<hr>")) [] tt tt

  module _ (g : DeeperTokens y) (h : AllPlain g) where
    IsPlain-child :
        (ruled : Bool) (child : y.Text) → IsPlain (child_tokens y empty_rules g ruled child)
    unfolding child_tokens get
    IsPlain-child ruled child =
        IsPlain-if (is_inline_type (node_type y child)) (link_tokens y g child) _
          (IsPlain-link_tokens g child h)
          (IsPlain-if (ruled && not (is_builtin (node_type y child))) (tokens_or y [] g child) []
            (IsPlain-tokens_or [] g child tt h) tt)

    IsPlain-piece :
        (ruled : Bool) (d : Output y) (st : RunState)
        → IsPlain (piece_tokens y empty_rules g ruled d st)
    IsPlain-piece ruled (y_map m) st =
        IsPlain-if (str_eq (codes "linebreak") (map_type y m)) (chars (codes "<br>")) [] tt tt
    IsPlain-piece ruled (any (Any.string s)) st =
        IsPlain-if st.is_tab (chars (codes "<span>\t</span>"))
          (chars (render_run s st.format st.style)) tt
          (IsPlain-chars (render_run s st.format st.style))
    IsPlain-piece ruled (y_xml_text child) st = IsPlain-child ruled child
    IsPlain-piece ruled (y_xml_element e) st = IsPlain-decorator e
    IsPlain-piece ruled (any _) st = tt
    IsPlain-piece ruled other st = tt

    IsPlain-pieces :
        (ruled : Bool) (st : RunState) (diff : List (Output y × Option (List (Str × Stored y))))
        → IsPlain (pieces_tokens y empty_rules g ruled st diff)
    unfolding pieces_tokens
    IsPlain-pieces ruled st [] = tt
    IsPlain-pieces ruled st ((d, attributes) ∷ diff) =
        IsPlain-append (piece_tokens y empty_rules g ruled d st) _ (IsPlain-piece ruled d st)
          (IsPlain-pieces ruled (state_after y d st) diff)

  IsPlain-inline :
      (left : ℕ) (ruled : Bool) (t : y.Text) → IsPlain (inline_tokens y empty_rules left ruled t)
  unfolding inline_tokens
  IsPlain-inline zero ruled t = IsPlain-pieces none tt ruled start (y.diff t)
  IsPlain-inline (suc left) ruled t =
      IsPlain-pieces (some (inline_tokens y empty_rules left true)) (IsPlain-inline left true) ruled
        start (y.diff t)

  inline-IsPlain : (ruled : Bool) (t : y.Text) → IsPlain (inline_of y empty_rules ruled t)
  inline-IsPlain ruled t = IsPlain-inline max_inline_depth ruled t

  element-IsPlain :
      (tag attrs : Str) (t : y.Text)
      → IsPlain (element_tokens tag attrs (inline_of y empty_rules true t))
  element-IsPlain tag attrs t =
      around (chars (open_tag tag attrs)) _ (close_tag tag) (IsPlain-chars (open_tag tag attrs))
        (inline-IsPlain true t)

  holder-PlainPlan :
      (tag attrs : Str) (ruled : Bool) (t : y.Text)
      → PlainPlan (holder y empty_rules tag attrs ruled t)
  holder-PlainPlan tag attrs ruled t kids q =
      around (chars (open_tag tag attrs) ++ inline_of y empty_rules ruled t) kids (close_tag tag)
        (then_chars (open_tag tag attrs) _ (inline-IsPlain ruled t)) q

  arm-PlainPlan : (a : Arm) (t : y.Text) → PlainPlan (plan_arm y empty_rules a t)
  unfolding plan_arm
  arm-PlainPlan paragraph t kids q =
      IsPlain-paragraph_tokens (codes "<p><br></p>") (inline_of y empty_rules true t)
        (inline-IsPlain true t)
  arm-PlainPlan heading t kids q = element-IsPlain (heading_tag (str_attr y t (codes "__tag"))) [] t
  arm-PlainPlan quote t kids q = element-IsPlain (codes "blockquote") [] t
  arm-PlainPlan code t kids q =
      element-IsPlain (codes "pre") (language_text (str_attr y t (codes "__language"))) t
  arm-PlainPlan list t kids q =
      holder-PlainPlan (list_tag (is_ordered (str_attr y t (codes "__tag")))) [] false t kids q
  arm-PlainPlan listitem t kids q =
      holder-PlainPlan (codes "li")
        (item_text (item_checked y (y.text_attribute t (codes "__checked")))
          (show_ℤ (item_value y (y.text_attribute t (codes "__value")))))
        true t kids q
  arm-PlainPlan table t kids q =
      around (chars (codes "<table><tbody>") ++ inline_of y empty_rules false t) kids
        (codes "</tbody></table>")
        (then_chars (codes "<table><tbody>") (inline_of y empty_rules false t)
          (inline-IsPlain false t))
        q
  arm-PlainPlan tablerow t kids q = holder-PlainPlan (codes "tr") [] false t kids q
  arm-PlainPlan tablecell t kids q =
      holder-PlainPlan (cell_tag y (is_header y (y.text_attribute t (codes "__headerState")))) []
        false t kids q
  arm-PlainPlan unknown t kids q =
      if-PlainPlan (has_any y (block_children y t)) _ _
        (λ ks k. around (inline_of y empty_rules false t) ks [] (inline-IsPlain false t) k)
        (λ ks k.
          IsPlain-paragraph_tokens [] (inline_of y empty_rules true t) (inline-IsPlain true t))
        kids q

  plan-PlainPlan : (t : y.Text) → PlainPlan (plan y empty_rules t)
  unfolding plan get
  plan-PlainPlan t = arm-PlainPlan (arm (node_type y t)) t

  document-IsPlain : (f : y.Fragment) → IsPlain (document_tokens y empty_rules f)
  unfolding document_tokens
  document-IsPlain f = IsPlain-concat_map (root_tokens y empty_rules) (y.roots f) at_root
    where
      at_root : (node : Node y) → IsPlain (root_tokens y empty_rules node)
      at_root (text t) =
          IsPlain-tree_tokens (pushed_children y empty_rules) (plan y empty_rules) plan-PlainPlan
            max_block_depth t
      at_root (element e) = IsPlain-decorator e
      at_root (fragment f) = IsPlain-chars (escape_text (y.fragment_string f))

  -- `render` never panics: no callback node is left without rules. It gives well-formed, escaped
  -- markup exactly for a Lexical-shaped document, and nothing for any other.
  pub lexical-IsRendered : (f : y.Fragment) → IsRendered (is_lexical_shaped y f) (render y f)
  unfolding render
  lexical-IsRendered f =
      subst (λ o. IsRendered (is_lexical_shaped y f) (html_of o))
        (sym (lexical-document_tokens y empty_rules f))
        (declined-IsRendered (is_lexical_shaped y f) (document_tokens y empty_rules f)
          (document-IsPlain f) (document_tokens-Markup y empty_rules f empty_rules-IsNamed))
