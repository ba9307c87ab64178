-- ===== src/Lexical/Inline.antt =====
-- Inline content: runs with their format maps, line breaks, tabs, links, inline rule nodes and
-- decorators.
pub mod Tokens
pub mod Written
pub mod WellFormed
use yrby.Base.{
  ℕ, zero, suc, ◌-◌, ◌%◌, ◌^◌, if◌then◌else◌, Bool, true, false, not, ◌&&◌, Option, none, some,
  List, [], ◌∷◌, Str, codes, str_eq, get,
}
use yrby.Base.Int.{ℤ, pos, negsuc}
use yrby.Yrs.{
  Yrs, Stored, Number, int, float, Any, Out, any, y_map, y_xml_element, y_xml_text, other, Output,
}
use yrby.HtmlCore.Segment.{nil}
use yrby.HtmlCore.Emitter.{Render, pure, ◌>>=◌, ◌>>◌, push_str, push, emit_deferred}
use yrby.HtmlCore.Escape.{escape_text, escape_attr}
use yrby.HtmlCore.Template.{NodeRule, declarative, callback, Rules, xml_ref_attr, xml_attrs_json}
use yrby.HtmlCore.RuleTag.{push_open_tag, push_template, push_close_tag}
use yrby.HtmlCore.Work.{RuleNode, inline_rule}
use yrby.Lexical.Run.{render_run}
use yrby.Lexical.Href.{safe_href}
use yrby.Lexical.Nodes.{
  is_builtin, is_inline_type, node_type, elem_type, str_attr, block_children, text_child_types,
  stored_string, string_or_empty,
}

-- `MAX_INLINE_DEPTH`
abbrev pub max_inline_depth : ℕ
max_inline_depth = 1024

-- `n as u32`, of an `i64`.
unfoldable pub as_u32 : ℤ → ℕ
as_u32 (pos n) = n % 2 ^ 32
as_u32 (negsuc n) = 2 ^ 32 - 1 - n % 2 ^ 32

-- What the loop over the runs carries along.
pub record RunState : Type 0 where
  pub format : ℕ
  pub style : Str
  pub is_tab : Bool

abbrev pub start : RunState
start = record { format = 0; style = []; is_tab = false }

module _ (y : Yrs) where
  -- What a rule reads of a text node.
  abbrev pub text_node : y.Text → RuleNode y.Text
  text_node t = record {
    node_type = node_type y t;
    attrs_json = xml_attrs_json y (y.text_attributes t);
    child_types = text_child_types y t;
    lookup = xml_ref_attr y (y.text_attribute t);
    children = block_children y t;
  }

  unfoldable pub format_bits : Option (Output y) → ℕ
  format_bits (some (any (Any.number (int n)))) = as_u32 n
  format_bits (some (any (Any.number (float n)))) = y.to_u32 n
  format_bits _ = 0

  unfoldable pub map_type : y.YMap → Str
  map_type m = string_or_empty y (stored_string y (y.map_get m (codes "__type")))

  abbrev pub tab_state : RunState
  tab_state = record { format = 0; style = []; is_tab = true }

  -- The format bits and the style for the run that follows.
  unfoldable pub read_metadata : y.YMap → RunState
  read_metadata m = record {
    format = format_bits (y.map_get m (codes "__format"));
    style = string_or_empty y (stored_string y (y.map_get m (codes "__style")));
    is_tab = false;
  }

  abbrev pub untabbed : RunState → RunState
  untabbed st = record { format = st.format; style = st.style; is_tab = false }

  -- A map in the content: a line break, a tab, or the metadata of a run.
  unfoldable pub inline_map : y.YMap → RunState → Render RunState
  inline_map m st =
      if str_eq (codes "linebreak") (map_type m)
      then push_str (codes "<br>") >> pure st
      else if str_eq (codes "tab") (map_type m)
      then pure tab_state
      else pure (read_metadata m)

  unfoldable pub inline_string : Str → RunState → Render RunState
  inline_string s st =
      if st.is_tab
      then push_str (codes "<span>\t</span>") >> pure (untabbed st)
      else push_str (render_run s st.format st.style) >> pure st

  abbrev push_href : Option Str → Render (Unit {0})
  push_href none = pure tt
  push_href (some url) = do
    push_str (codes " href=\"")
    push_str (escape_attr (safe_href url))
    push b'"'

  -- `.filter(|s| !s.is_empty())`
  abbrev push_title : Option Str → Render (Unit {0})
  push_title none = pure tt
  push_title (some []) = pure tt
  push_title (some (c ∷ title)) = do
    push_str (codes " title=\"")
    push_str (escape_attr (c ∷ title))
    push b'"'

  -- The guarded recursive call, `none` at the depth limit. Each call hands in `true` for
  -- `ruled_inline`, a wrapper's too, which stands where the flag is set.
  abbrev pub Deeper : Type 0
  Deeper = Option (y.Text → Render (Unit {0}))

  abbrev pub deeper_or : Render (Unit {0}) → Deeper → y.Text → Render (Unit {0})
  deeper_or flat none t = flat
  deeper_or flat (some f) t = f t

  unfoldable pub render_link : Deeper → y.Text → Render (Unit {0})
  render_link deeper t = do
    push_str (codes "<a")
    push_href (str_attr y t (codes "__url"))
    push_title (str_attr y t (codes "__title"))
    push b'>'
    deeper_or (push_str (escape_text (y.text_string t))) deeper t
    push_str (codes "</a>")

  unfoldable pub render_rule_inline : Deeper → y.Text → NodeRule → Render (Unit {0})
  render_rule_inline deeper t rule = inline_rule (text_node t) (deeper_or (pure tt) deeper t) rule

  -- A decorator through a rule: content slots are ignored.
  unfoldable pub render_rule_element : y.Element → NodeRule → Render (Unit {0})
  render_rule_element e (callback slot) =
      emit_deferred (elem_type y e) (xml_attrs_json y (y.attributes e)) [] nil
  render_rule_element e (declarative tag void attrs template slot) = do
    push_open_tag tag attrs (xml_ref_attr y (y.attribute e))
    if void
        then pure tt
        else do push_template template (xml_ref_attr y (y.attribute e)); push_close_tag tag

  abbrev decorate : y.Element → Option NodeRule → Render (Unit {0})
  decorate e (some rule) = render_rule_element e rule
  decorate e none =
      if str_eq (codes "horizontalrule") (elem_type y e) then push_str (codes "<hr>") else pure tt

module _ (y : Yrs) (rules : Rules) where
  unfoldable pub render_decorator : y.Element → Render (Unit {0})
  render_decorator e = decorate y e (get rules.nodes (elem_type y e))

  abbrev link_child : Deeper y → y.Text → Option NodeRule → Render (Unit {0})
  link_child deeper child (some rule) = render_rule_inline y deeper child rule
  link_child deeper child none = render_link y deeper child

  -- An unknown wrapper renders its text, where the depth allows it.
  abbrev ruled_child : Deeper y → y.Text → Option NodeRule → Render (Unit {0})
  ruled_child deeper child (some rule) = render_rule_inline y deeper child rule
  ruled_child deeper child none = deeper_or y (pure tt) deeper child

  -- A text child, by its type.
  unfoldable pub inline_child : Deeper y → Bool → y.Text → Render (Unit {0})
  inline_child deeper ruled child =
      if is_inline_type (node_type y child)
      then link_child deeper child (get rules.nodes (node_type y child))
      else if ruled && not (is_builtin (node_type y child))
      then ruled_child deeper child (get rules.nodes (node_type y child))
      else pure tt

  -- One piece of the content.
  unfoldable pub inline_piece : Deeper y → Bool → Output y → RunState → Render RunState
  inline_piece deeper ruled (y_map m) st = inline_map y m st
  inline_piece deeper ruled (any (Any.string s)) st = inline_string y s st
  inline_piece deeper ruled (y_xml_text child) st = inline_child deeper ruled child >> pure st
  inline_piece deeper ruled (y_xml_element e) st = render_decorator e >> pure st
  inline_piece deeper ruled _ st = pure st

  unfoldable pub inline_loop :
      Deeper y
      → Bool
      → RunState
      → List (Output y × Option (List (Str × Stored y)))
      → Render (Unit {0})
  inline_loop deeper ruled st [] = pure tt
  inline_loop deeper ruled st ((d, _) ∷ diff) =
      inline_piece deeper ruled d st >>= λ next. inline_loop deeper ruled next diff

  -- `left` is `MAX_INLINE_DEPTH - depth`, the levels that may still be entered.
  unfoldable pub render_inline : ℕ → Bool → y.Text → Render (Unit {0})
  render_inline zero ruled t = inline_loop none ruled start (y.diff t)
  render_inline (suc left) ruled t =
      inline_loop (some (render_inline left true)) ruled start (y.diff t)
