-- ===== src/Lexical/Inline/WellFormed.antt =====
-- What inline content renders to is markup.
use yrby.Base.{
  ℕ, zero, suc, refl, Bool, true, false, Option, none, some, List, [], ◌∷◌, Str, codes, get,
  is_one_of, str_eq, arith,
}
use yrby.Yrs.{Yrs, Stored, Any, any, y_map, y_xml_element, y_xml_text, other, Output}
use yrby.HtmlCore.Segment.Tokens.{Tok, chars, emit}
use yrby.HtmlCore.Template.{NodeRule, declarative, callback, Rules, xml_ref_attr}
use yrby.HtmlCore.Markup.{
  Attributes, no_attributes, Markup, nothing, callback_node, element, void_element, sequence,
}
use yrby.HtmlCore.Markup.Build.{
  if-Markup, chars-Markup, escaped-Markup, attr_text-Attributes, Attributes-append,
}
use yrby.HtmlCore.Markup.Named.{IsNamed, IsNamedNode, Found, get-Found, rule_attrs-Attributes}
use yrby.HtmlCore.RuleTag.Writes.{template_tokens, template_tokens-Markup}
use yrby.HtmlCore.Work.WellFormed.{rule_element, inline_rule-Markup}
use yrby.Lexical.Run.WellFormed.{render_run-Markup}
use yrby.Lexical.Href.{safe_href}
use yrby.Lexical.Nodes.{node_type, elem_type, str_attr}
use yrby.Lexical.Inline.{RunState, start, text_node}
use yrby.Lexical.Inline.Tokens.{
  href_text, title_text, string_tokens, DeeperTokens, tokens_or, link_tokens, rule_tokens,
  rule_element_tokens, decorated_tokens, state_after, decorator_tokens, link_child_tokens,
  ruled_child_tokens, child_tokens, piece_tokens, pieces_tokens, inline_tokens,
}

href_text-Attributes : (o : Option Str) → Attributes (href_text o)
href_text-Attributes none = no_attributes
href_text-Attributes (some url) = attr_text-Attributes (codes "href") (safe_href url) (ground arith)

title_text-Attributes : (o : Option Str) → Attributes (title_text o)
title_text-Attributes none = no_attributes
title_text-Attributes (some []) = no_attributes
title_text-Attributes (some (c ∷ title)) =
    attr_text-Attributes (codes "title") (c ∷ title) (ground arith)

string_tokens-Markup :
    (is_tab : Bool) (html : Str) → Markup (chars html) → Markup (string_tokens is_tab html)
string_tokens-Markup true html h =
    element (codes "span") [] (chars (codes "\t")) (ground arith) no_attributes
      (chars-Markup (codes "\t") (ground arith))
string_tokens-Markup false html h = h

pub br_Markup : Markup (chars (codes "<br>"))
unfolding is_one_of str_eq
br_Markup = void_element (codes "br") [] (ground arith) refl no_attributes

hr_Markup : Markup (chars (codes "<hr>"))
unfolding is_one_of str_eq
hr_Markup = void_element (codes "hr") [] (ground arith) refl no_attributes

module _ (y : Yrs) where
  abbrev AllMarkup : DeeperTokens y → Type 0
  AllMarkup none = Unit
  AllMarkup (some g) = (t : y.Text) → Markup (g t)

  tokens_or-Markup :
      (ts : List Tok) (g : DeeperTokens y) (t : y.Text)
      → Markup ts
      → AllMarkup g
      → Markup (tokens_or y ts g t)
  tokens_or-Markup ts none t h k = h
  tokens_or-Markup ts (some g) t h k = k t

  link_tokens-Markup : (g : DeeperTokens y) (t : y.Text) → AllMarkup g → Markup (link_tokens y g t)
  unfolding link_tokens
  link_tokens-Markup g t h =
      element (codes "a") _ _ (ground arith)
        (Attributes-append (href_text-Attributes (str_attr y t (codes "__url")))
          (title_text-Attributes (str_attr y t (codes "__title"))))
        (tokens_or-Markup _ g t (escaped-Markup (y.text_string t)) h)

  rule_tokens-Markup :
      (g : DeeperTokens y) (t : y.Text) (rule : NodeRule)
      → IsNamedNode rule
      → AllMarkup g
      → Markup (rule_tokens y g t rule)
  rule_tokens-Markup g t rule n h =
      inline_rule-Markup (text_node y t) _ rule n (tokens_or-Markup [] g t nothing h)

  rule_element_tokens-Markup :
      (e : y.Element) (rule : NodeRule) → IsNamedNode rule → Markup (rule_element_tokens y e rule)
  unfolding rule_element_tokens emit
  rule_element_tokens-Markup e (callback slot) n = callback_node _ _ _ [] nothing
  rule_element_tokens-Markup e (declarative tag void attrs template slot) n =
      let lookup = xml_ref_attr y (y.attribute e) in
      rule_element tag _ void (template_tokens template lookup) [] n.0 n.2
        (rule_attrs-Attributes lookup attrs n.1) (template_tokens-Markup template lookup) nothing

  decorated-Markup :
      (e : y.Element) (rule : Option NodeRule)
      → Found IsNamedNode rule
      → Markup (decorated_tokens y e rule)
  decorated-Markup e none n = if-Markup _ _ [] hr_Markup nothing
  decorated-Markup e (some rule) n = rule_element_tokens-Markup e rule n

module _ (y : Yrs) (rules : Rules) (named : IsNamed rules) where
  found : (ty : Str) → Found IsNamedNode (get rules.nodes ty)
  found ty = get-Found IsNamedNode rules.nodes ty named.nodes

  pub decorator_tokens-Markup : (e : y.Element) → Markup (decorator_tokens y rules e)
  unfolding decorator_tokens
  decorator_tokens-Markup e = decorated-Markup y e _ (found (elem_type y e))

  module _ (g : DeeperTokens y) (h : AllMarkup y g) where
    link_child-Markup :
        (child : y.Text) (rule : Option NodeRule)
        → Found IsNamedNode rule
        → Markup (link_child_tokens y rules g child rule)
    link_child-Markup child none n = link_tokens-Markup y g child h
    link_child-Markup child (some rule) n = rule_tokens-Markup y g child rule n h

    ruled_child-Markup :
        (child : y.Text) (rule : Option NodeRule)
        → Found IsNamedNode rule
        → Markup (ruled_child_tokens y rules g child rule)
    ruled_child-Markup child none n = tokens_or-Markup y [] g child nothing h
    ruled_child-Markup child (some rule) n = rule_tokens-Markup y g child rule n h

    child-Markup : (ruled : Bool) (child : y.Text) → Markup (child_tokens y rules g ruled child)
    unfolding child_tokens
    child-Markup ruled child =
        if-Markup _ _ _ (link_child-Markup child _ (found (node_type y child)))
          (if-Markup _ _ [] (ruled_child-Markup child _ (found (node_type y child))) nothing)

    piece-Markup :
        (ruled : Bool) (d : Output y) (st : RunState) → Markup (piece_tokens y rules g ruled d st)
    piece-Markup ruled (y_map m) st = if-Markup _ _ [] br_Markup nothing
    piece-Markup ruled (any (Any.string s)) st =
        string_tokens-Markup st.is_tab _ (render_run-Markup s st.format st.style)
    piece-Markup ruled (y_xml_text child) st = child-Markup ruled child
    piece-Markup ruled (y_xml_element e) st = decorator_tokens-Markup e
    piece-Markup ruled (any _) st = nothing
    piece-Markup ruled other st = nothing

    pieces-Markup :
        (ruled : Bool) (st : RunState) (diff : List (Output y × Option (List (Str × Stored y))))
        → Markup (pieces_tokens y rules g ruled st diff)
    unfolding pieces_tokens
    pieces-Markup ruled st [] = nothing
    pieces-Markup ruled st ((d, attributes) ∷ diff) =
        sequence (piece_tokens y rules g ruled d st) _ (piece-Markup ruled d st)
          (pieces-Markup ruled (state_after y d st) diff)

  pub inline_tokens-Markup :
      (left : ℕ) (ruled : Bool) (t : y.Text) → Markup (inline_tokens y rules left ruled t)
  unfolding inline_tokens
  inline_tokens-Markup zero ruled t = pieces-Markup none tt ruled start (y.diff t)
  inline_tokens-Markup (suc left) ruled t =
      pieces-Markup (some (inline_tokens y rules left true)) (inline_tokens-Markup left true) ruled
        start (y.diff t)
