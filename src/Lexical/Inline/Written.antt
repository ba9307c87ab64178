-- ===== src/Lexical/Inline/Written.antt =====
-- Inline content is written as its tokens.
use yrby.Base.{
  ℕ, zero, suc, ◌≡◌, subst, if◌then◌else◌, Bool, true, false, not, ◌&&◌, Option, none, some, List,
  [], ◌∷◌, ◌++◌, append_assoc, Str, codes, str_eq, get,
}
use yrby.Yrs.{Yrs, Stored, Any, any, y_map, y_xml_element, y_xml_text, other, Output}
use yrby.HtmlCore.Segment.Tokens.{Tok, chars, chars-append}
use yrby.HtmlCore.Emitter.{Render, pure, push_str, ◌>>◌}
use yrby.HtmlCore.Emitter.Emits.{
  Emits, Writes, Emits-pure, Emits-push_str, Emits-push, Emits-emit_deferred, Emits-bind, Emits-if,
  seq, ending,
}
use yrby.HtmlCore.Escape.{escape_text, escape_attr}
use yrby.HtmlCore.Template.{NodeRule, declarative, callback, Rules}
use yrby.HtmlCore.Markup.{open_tag, close_tag}
use yrby.HtmlCore.RuleTag.Writes.{
  value_pieces, Writes-push_open_tag, Writes-push_template, Writes-push_close_tag,
}
use yrby.HtmlCore.Work.Rule.{Writes-inline_rule}
use yrby.Lexical.Run.{render_run}
use yrby.Lexical.Href.{safe_href}
use yrby.Lexical.Nodes.{is_builtin, is_inline_type, node_type, elem_type, str_attr}
use yrby.Lexical.Inline.{
  RunState, start, text_node, map_type, tab_state, read_metadata, untabbed, inline_map,
  inline_string, push_href, push_title, Deeper, deeper_or, render_link, render_rule_inline,
  render_rule_element, decorate, render_decorator, link_child, ruled_child, inline_child,
  inline_piece, inline_loop, render_inline,
}
use yrby.Lexical.Inline.Tokens.{
  href_text, title_text, string_tokens, DeeperTokens, tokens_or, link_tokens, rule_tokens,
  rule_element_tokens, decorated_tokens, map_state, state_after, decorator_tokens,
  link_child_tokens, ruled_child_tokens, child_tokens, piece_tokens, pieces_tokens, inline_tokens,
}

module _ (y : Yrs) where
  Writes-push_href : (o : Option Str) → Writes (push_href y o) (chars (href_text o))
  Writes-push_href none = Emits-pure tt
  Writes-push_href (some url) =
      subst (Writes (push_href y (some url)))
        (value_pieces (codes " href=\"") (escape_attr (safe_href url)))
        (seq (Emits-push_str (codes " href=\"")) (seq (Emits-push_str _) (Emits-push b'"')))

  Writes-push_title : (o : Option Str) → Writes (push_title y o) (chars (title_text o))
  Writes-push_title none = Emits-pure tt
  Writes-push_title (some []) = Emits-pure tt
  Writes-push_title (some (c ∷ title)) =
      subst (Writes (push_title y (some (c ∷ title))))
        (value_pieces (codes " title=\"") (escape_attr (c ∷ title)))
        (seq (Emits-push_str (codes " title=\"")) (seq (Emits-push_str _) (Emits-push b'"')))

  -- The recursive call is written as its tokens, where there is one.
  abbrev IsWritten : Deeper y → DeeperTokens y → Type 0
  IsWritten none none = Unit
  IsWritten (some f) (some g) = (t : y.Text) → Writes (f t) (g t)
  IsWritten _ _ = ⊥

  Writes-deeper_or :
      (m : Render (Unit {0})) (ts : List Tok) (f : Deeper y) (g : DeeperTokens y) (t : y.Text)
      → Writes m ts
      → IsWritten f g
      → Writes (deeper_or y m f t) (tokens_or y ts g t)
  Writes-deeper_or m ts none none t h k = h
  Writes-deeper_or m ts (some f) (some g) t h k = k t
  Writes-deeper_or m ts none (some g) t h k = absurd k
  Writes-deeper_or m ts (some f) none t h k = absurd k

  link_pieces :
      (a b : Str) (body : List Tok)
      → chars (codes "<a")
          ++ (chars a ++ (chars b ++ (chars (codes ">") ++ (body ++ chars (codes "</a>")))))
        ≡ chars (open_tag (codes "a") (a ++ b)) ++ (body ++ chars (close_tag (codes "a")))
  link_pieces a b body = simp (chars-append, append_assoc)

  Writes-render_link :
      (f : Deeper y) (g : DeeperTokens y) (t : y.Text)
      → IsWritten f g
      → Writes (render_link y f t) (link_tokens y g t)
  unfolding render_link link_tokens
  Writes-render_link f g t h =
      subst (Writes _)
        (link_pieces (href_text (str_attr y t (codes "__url")))
          (title_text (str_attr y t (codes "__title"))) _)
        (seq (Emits-push_str (codes "<a")) (
          seq (Writes-push_href (str_attr y t (codes "__url"))) (
            seq (Writes-push_title (str_attr y t (codes "__title"))) (
              seq (Emits-push b'>') (
                seq (Writes-deeper_or _ _ f g t (Emits-push_str (escape_text (y.text_string t))) h)
                  (Emits-push_str (codes "</a>")))))))

  Writes-render_rule_inline :
      (f : Deeper y) (g : DeeperTokens y) (t : y.Text) (rule : NodeRule)
      → IsWritten f g
      → Writes (render_rule_inline y f t rule) (rule_tokens y g t rule)
  unfolding render_rule_inline
  Writes-render_rule_inline f g t rule h =
      Writes-inline_rule (text_node y t) (deeper_or y (pure tt) f t) (tokens_or y [] g t) rule
        (Writes-deeper_or (pure tt) [] f g t (Emits-pure tt) h)

  Writes-render_rule_element :
      (e : y.Element) (rule : NodeRule)
      → Writes (render_rule_element y e rule) (rule_element_tokens y e rule)
  unfolding render_rule_element rule_element_tokens
  Writes-render_rule_element e (callback slot) = Emits-emit_deferred _ _ _ _
  Writes-render_rule_element e (declarative tag void attrs template slot) =
      seq (Writes-push_open_tag tag attrs _) (
        Emits-if void (pure tt) _ tt [] _ (Emits-pure tt)
          (seq (Writes-push_template template _) (Writes-push_close_tag tag)))

  Writes-decorate :
      (e : y.Element) (rule : Option NodeRule)
      → Writes (decorate y e rule) (decorated_tokens y e rule)
  Writes-decorate e (some rule) = Writes-render_rule_element e rule
  Writes-decorate e none = Emits-if _ _ _ tt _ _ (Emits-push_str (codes "<hr>")) (Emits-pure tt)

  Emits-inline_map :
      (m : y.YMap) (st : RunState)
      → Emits
          (inline_map y m st)
          (map_state y m st)
          (if str_eq (codes "linebreak") (map_type y m) then chars (codes "<br>") else [])
  unfolding inline_map
  Emits-inline_map m st =
      at_type (str_eq (codes "linebreak") (map_type y m)) (str_eq (codes "tab") (map_type y m))
    where
      at_type :
          (b c : Bool)
          → Emits
              (if b
                then push_str (codes "<br>") >> pure st
                else if c
                then pure (tab_state y)
                else pure (read_metadata y m))
              (if b then st else if c then tab_state y else read_metadata y m)
              (if b then chars (codes "<br>") else [])
      at_type true c = ending st (Emits-push_str (codes "<br>"))
      at_type false true = Emits-pure _
      at_type false false = Emits-pure _

  Emits-inline_string :
      (s : Str) (st : RunState)
      → Emits
          (inline_string y s st)
          (if st.is_tab then untabbed y st else st)
          (string_tokens st.is_tab (render_run s st.format st.style))
  unfolding inline_string
  Emits-inline_string s st = at_tab st.is_tab
    where
      at_tab :
          (b : Bool)
          → Emits
              (if b
                then push_str (codes "<span>\t</span>") >> pure (untabbed y st)
                else push_str (render_run s st.format st.style) >> pure st)
              (if b then untabbed y st else st)
              (string_tokens b (render_run s st.format st.style))
      at_tab true = ending _ (Emits-push_str (codes "<span>\t</span>"))
      at_tab false = ending st (Emits-push_str _)

module _ (y : Yrs) (rules : Rules) where
  pub Writes-render_decorator :
      (e : y.Element) → Writes (render_decorator y rules e) (decorator_tokens y rules e)
  unfolding render_decorator decorator_tokens
  Writes-render_decorator e = Writes-decorate y e (get rules.nodes (elem_type y e))

  module _ (f : Deeper y) (g : DeeperTokens y) (h : IsWritten y f g) where
    Writes-link_child :
        (child : y.Text) (rule : Option NodeRule)
        → Writes (link_child y rules f child rule) (link_child_tokens y rules g child rule)
    Writes-link_child child (some rule) = Writes-render_rule_inline y f g child rule h
    Writes-link_child child none = Writes-render_link y f g child h

    Writes-ruled_child :
        (child : y.Text) (rule : Option NodeRule)
        → Writes (ruled_child y rules f child rule) (ruled_child_tokens y rules g child rule)
    Writes-ruled_child child (some rule) = Writes-render_rule_inline y f g child rule h
    Writes-ruled_child child none = Writes-deeper_or y (pure tt) [] f g child (Emits-pure tt) h

    Writes-inline_child :
        (ruled : Bool) (child : y.Text)
        → Writes (inline_child y rules f ruled child) (child_tokens y rules g ruled child)
    unfolding inline_child child_tokens
    Writes-inline_child ruled child =
        let rule = get rules.nodes (node_type y child) in
        Emits-if (is_inline_type (node_type y child)) _ _ tt _ _ (Writes-link_child child rule) (
          Emits-if (ruled && not (is_builtin (node_type y child))) _ _ tt _ _
            (Writes-ruled_child child rule) (Emits-pure tt))

    Emits-inline_piece :
        (ruled : Bool) (d : Output y) (st : RunState)
        → Emits
            (inline_piece y rules f ruled d st)
            (state_after y d st)
            (piece_tokens y rules g ruled d st)
    unfolding inline_piece
    Emits-inline_piece ruled (y_map m) st = Emits-inline_map y m st
    Emits-inline_piece ruled (any (Any.string s)) st = Emits-inline_string y s st
    Emits-inline_piece ruled (y_xml_text child) st = ending st (Writes-inline_child ruled child)
    Emits-inline_piece ruled (y_xml_element e) st = ending st (Writes-render_decorator e)
    Emits-inline_piece ruled (any _) st = Emits-pure st
    Emits-inline_piece ruled other st = Emits-pure st

    Writes-inline_loop :
        (ruled : Bool) (st : RunState) (diff : List (Output y × Option (List (Str × Stored y))))
        → Writes (inline_loop y rules f ruled st diff) (pieces_tokens y rules g ruled st diff)
    unfolding inline_loop pieces_tokens
    Writes-inline_loop ruled st [] = Emits-pure tt
    Writes-inline_loop ruled st ((d, attributes) ∷ diff) =
        Emits-bind (inline_piece y rules f ruled d st)
          (λ next. inline_loop y rules f ruled next diff) (state_after y d st) tt
          (piece_tokens y rules g ruled d st)
          (pieces_tokens y rules g ruled (state_after y d st) diff) (Emits-inline_piece ruled d st)
          (Writes-inline_loop ruled (state_after y d st) diff)

  pub Writes-render_inline :
      (left : ℕ) (ruled : Bool) (t : y.Text)
      → Writes (render_inline y rules left ruled t) (inline_tokens y rules left ruled t)
  unfolding render_inline inline_tokens
  Writes-render_inline zero ruled t = Writes-inline_loop none none tt ruled start (y.diff t)
  Writes-render_inline (suc left) ruled t =
      Writes-inline_loop (some (render_inline y rules left true))
        (some (inline_tokens y rules left true)) (Writes-render_inline left true) ruled start
        (y.diff t)
