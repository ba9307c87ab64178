-- ===== src/Lexical/Inline/Tokens.antt =====
-- The tokens that inline content emits.
use yrby.Base.{
  ℕ, zero, suc, if◌then◌else◌, Bool, true, not, ◌&&◌, Option, none, some, List, [], ◌∷◌, ◌++◌, Str,
  codes, str_eq, get,
}
use yrby.Yrs.{Yrs, Stored, Any, any, y_map, y_xml_element, y_xml_text, Output}
use yrby.HtmlCore.Segment.{nil}
use yrby.HtmlCore.Segment.Tokens.{Tok, hole, chars}
use yrby.HtmlCore.Escape.{escape_text}
use yrby.HtmlCore.Template.{NodeRule, declarative, callback, Rules, xml_ref_attr, xml_attrs_json}
use yrby.HtmlCore.Markup.{open_tag, close_tag}
use yrby.HtmlCore.Markup.Build.{attr_text}
use yrby.HtmlCore.Markup.Named.{rule_attrs}
use yrby.HtmlCore.RuleTag.Writes.{template_tokens}
use yrby.HtmlCore.Work.Rule.{inline_rule_tokens}
use yrby.Lexical.Run.{render_run}
use yrby.Lexical.Href.{safe_href}
use yrby.Lexical.Nodes.{is_builtin, is_inline_type, node_type, elem_type, str_attr}
use yrby.Lexical.Inline.{RunState, start, text_node, map_type, tab_state, read_metadata, untabbed}

abbrev pub href_text : Option Str → Str
href_text none = []
href_text (some url) = attr_text (codes "href") (safe_href url)

abbrev pub title_text : Option Str → Str
title_text none = []
title_text (some []) = []
title_text (some (c ∷ title)) = attr_text (codes "title") (c ∷ title)

-- What follows the state that a piece leaves.
abbrev pub map_tokens : Bool → List Tok
map_tokens breaks = if breaks then chars (codes "<br>") else []

abbrev pub string_tokens : Bool → Str → List Tok
string_tokens is_tab html = if is_tab then chars (codes "<span>\t</span>") else chars html

module _ (y : Yrs) where
  abbrev pub DeeperTokens : Type 0
  DeeperTokens = Option (y.Text → List Tok)

  abbrev pub tokens_or : List Tok → DeeperTokens → y.Text → List Tok
  tokens_or flat none t = flat
  tokens_or flat (some g) t = g t

  abbrev pub link_attrs : y.Text → Str
  link_attrs t =
      href_text (str_attr y t (codes "__url")) ++ title_text (str_attr y t (codes "__title"))

  unfoldable pub link_tokens : DeeperTokens → y.Text → List Tok
  link_tokens deeper t =
      chars (open_tag (codes "a") (link_attrs t))
      ++ (tokens_or (chars (escape_text (y.text_string t))) deeper t
          ++ chars (close_tag (codes "a")))

  abbrev pub rule_tokens : DeeperTokens → y.Text → NodeRule → List Tok
  rule_tokens deeper t rule = inline_rule_tokens (text_node y t) (tokens_or [] deeper t) rule

  unfoldable pub rule_element_tokens : y.Element → NodeRule → List Tok
  rule_element_tokens e (callback slot) =
      hole (elem_type y e) (xml_attrs_json y (y.attributes e)) [] nil ∷ []
  rule_element_tokens e (declarative tag void attrs template slot) =
      let lookup = xml_ref_attr y (y.attribute e) in
      chars (open_tag tag (rule_attrs lookup attrs))
      ++ (if void then [] else template_tokens template lookup ++ chars (close_tag tag))

  abbrev pub decorated_tokens : y.Element → Option NodeRule → List Tok
  decorated_tokens e (some rule) = rule_element_tokens e rule
  decorated_tokens e none =
      if str_eq (codes "horizontalrule") (elem_type y e) then chars (codes "<hr>") else []

  abbrev pub map_state : y.YMap → RunState → RunState
  map_state m st =
      if str_eq (codes "linebreak") (map_type y m)
      then st
      else if str_eq (codes "tab") (map_type y m)
      then tab_state y
      else read_metadata y m

  -- The state behind a piece.
  abbrev pub state_after : Output y → RunState → RunState
  state_after (y_map m) st = map_state m st
  state_after (any (Any.string s)) st = if st.is_tab then untabbed y st else st
  state_after _ st = st

module _ (y : Yrs) (rules : Rules) where
  unfoldable pub decorator_tokens : y.Element → List Tok
  decorator_tokens e = decorated_tokens y e (get rules.nodes (elem_type y e))

  abbrev pub link_child_tokens : DeeperTokens y → y.Text → Option NodeRule → List Tok
  link_child_tokens deeper child (some rule) = rule_tokens y deeper child rule
  link_child_tokens deeper child none = link_tokens y deeper child

  abbrev pub ruled_child_tokens : DeeperTokens y → y.Text → Option NodeRule → List Tok
  ruled_child_tokens deeper child (some rule) = rule_tokens y deeper child rule
  ruled_child_tokens deeper child none = tokens_or y [] deeper child

  unfoldable pub child_tokens : DeeperTokens y → Bool → y.Text → List Tok
  child_tokens deeper ruled child =
      if is_inline_type (node_type y child)
      then link_child_tokens deeper child (get rules.nodes (node_type y child))
      else if ruled && not (is_builtin (node_type y child))
      then ruled_child_tokens deeper child (get rules.nodes (node_type y child))
      else []

  abbrev pub piece_tokens : DeeperTokens y → Bool → Output y → RunState → List Tok
  piece_tokens deeper ruled (y_map m) st = map_tokens (str_eq (codes "linebreak") (map_type y m))
  piece_tokens deeper ruled (any (Any.string s)) st =
      string_tokens st.is_tab (render_run s st.format st.style)
  piece_tokens deeper ruled (y_xml_text child) st = child_tokens deeper ruled child
  piece_tokens deeper ruled (y_xml_element e) st = decorator_tokens e
  piece_tokens deeper ruled _ st = []

  unfoldable pub pieces_tokens :
      DeeperTokens y → Bool → RunState → List (Output y × Option (List (Str × Stored y))) → List Tok
  pieces_tokens deeper ruled st [] = []
  pieces_tokens deeper ruled st ((d, attributes) ∷ diff) =
      piece_tokens deeper ruled d st ++ pieces_tokens deeper ruled (state_after y d st) diff

  -- Inline content, `left` levels deep at most.
  unfoldable pub inline_tokens : ℕ → Bool → y.Text → List Tok
  inline_tokens zero ruled t = pieces_tokens none ruled start (y.diff t)
  inline_tokens (suc left) ruled t =
      pieces_tokens (some (inline_tokens left true)) ruled start (y.diff t)
