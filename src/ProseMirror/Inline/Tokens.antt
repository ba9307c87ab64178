-- ===== src/ProseMirror/Inline/Tokens.antt =====
-- The tokens that inline content emits.
use yrby.Base.{
  ℕ, zero, suc, ◌≡◌, sym, subst, ap, ◌∙◌, if◌then◌else◌, Option, none, some, List, [], ◌∷◌, ◌++◌,
  Str, codes, str_eq, is_one_of, get, concat_map,
}
use yrby.Yrs.{Yrs, element, fragment, text, Node}
use yrby.HtmlCore.Segment.Tokens.{Tok, chars, chars-append}
use yrby.HtmlCore.Emitter.{Render, pure}
use yrby.HtmlCore.Emitter.Emits.{
  Writes, Emits-pure, Emits-push_str, Emits-push, Emits-for_each, Emits-if, seq,
}
use yrby.HtmlCore.Escape.{escape_attr}
use yrby.HtmlCore.Template.{NodeRule, Rules}
use yrby.HtmlCore.Markup.{open_tag}
use yrby.HtmlCore.Markup.Named.{resolved_text}
use yrby.HtmlCore.RuleTag.Writes.{attr_pieces, chars-concat_map}
use yrby.HtmlCore.Work.Rule.{inline_rule_tokens, Writes-inline_rule}
use yrby.ProseMirror.Runs.Tokens.{run_tokens, Writes-render_text_runs}
use yrby.ProseMirror.Inline.{
  rule_node, str_attr, push_image_attr, image_attrs, render_image, render_rule_inline,
  inline_element, inline_node, render_inline,
}

abbrev pub image_text : (Str → Option Str) → Str
image_text lookup =
    open_tag (codes "img") (concat_map (λ name. resolved_text name (lookup name)) image_attrs)

module _ (y : Yrs) where
  Writes-push_image_attr :
      (name : Str) (o : Option Str)
      → Writes (push_image_attr y name o) (chars (resolved_text name o))
  Writes-push_image_attr name none = Emits-pure tt
  Writes-push_image_attr name (some v) =
      subst (Writes (push_image_attr y name (some v))) (attr_pieces name (escape_attr v)) (
        seq (Emits-push b' ') (
          seq (Emits-push_str name) (
            seq (Emits-push_str (codes "=\""))
              (seq (Emits-push_str (escape_attr v)) (Emits-push b'"')))))

  pub Writes-render_image :
      (e : y.Element) → Writes (render_image y e) (chars (image_text (str_attr y e)))
  unfolding render_image
  Writes-render_image e =
      subst (Writes (render_image y e)) (pieces (λ name. resolved_text name (str_attr y e name))) (
        seq (Emits-push_str (codes "<img")) (
          seq
            (Emits-for_each (λ name. push_image_attr y name (str_attr y e name))
              (λ name. chars (resolved_text name (str_attr y e name))) image_attrs
              (λ name. Writes-push_image_attr name (str_attr y e name)))
            (Emits-push b'>')))
    where
      pieces :
          (f : Str → Str)
          → chars (codes "<img")
              ++ (concat_map (λ name. chars (f name)) image_attrs ++ chars (codes ">"))
            ≡ chars (open_tag (codes "img") (concat_map f image_attrs))
      pieces f =
          ap (λ ts. chars (codes "<img") ++ (ts ++ chars (codes ">")))
            (chars-concat_map f image_attrs)
          ∙ ap (λ ts. chars (codes "<img") ++ ts)
              (sym (chars-append (concat_map f image_attrs) (codes ">")))

module _ (y : Yrs) (rules : Rules) where
  -- `deeper` is what the node's content emits.
  abbrev pub rule_inline_tokens : List Tok → y.Element → NodeRule → List Tok
  rule_inline_tokens deeper e rule = inline_rule_tokens (rule_node y e) deeper rule

  abbrev pub element_tokens : List Tok → y.Element → Option NodeRule → List Tok
  element_tokens deeper child (some rule) = rule_inline_tokens deeper child rule
  element_tokens deeper child none =
      if is_one_of (codes "hardBreak" ∷ codes "hard_break" ∷ []) (y.tag child)
      then chars (codes "<br>")
      else if str_eq (codes "image") (y.tag child)
      then chars (image_text (str_attr y child))
      else deeper

  abbrev pub node_tokens : (y.Element → List Tok) → Node y → List Tok
  node_tokens deeper (text t) = run_tokens y rules t
  node_tokens deeper (element child) =
      element_tokens (deeper child) child (get rules.nodes (y.tag child))
  node_tokens deeper (fragment f) = []

  -- Inline content, `left` levels deep at most.
  unfoldable pub inline_tokens : ℕ → y.Element → List Tok
  inline_tokens zero e = concat_map (node_tokens (λ _. [])) (y.children e)
  inline_tokens (suc left) e = concat_map (node_tokens (inline_tokens left)) (y.children e)

  Writes-render_rule_inline :
      (m : Render (Unit {0})) (ts : List Tok) (e : y.Element) (rule : NodeRule)
      → Writes m ts
      → Writes (render_rule_inline y rules m e rule) (rule_inline_tokens ts e rule)
  unfolding render_rule_inline
  Writes-render_rule_inline m ts e rule h = Writes-inline_rule (rule_node y e) m ts rule h

  Writes-inline_element :
      (m : Render (Unit {0})) (ts : List Tok) (child : y.Element) (rule : Option NodeRule)
      → Writes m ts
      → Writes (inline_element y rules m child rule) (element_tokens ts child rule)
  Writes-inline_element m ts child (some rule) h = Writes-render_rule_inline m ts child rule h
  Writes-inline_element m ts child none h =
      Emits-if _ _ _ tt _ _ (Emits-push_str (codes "<br>"))
        (Emits-if _ _ _ tt _ _ (Writes-render_image y child) h)

  Writes-inline_node :
      (f : y.Element → Render (Unit {0})) (g : y.Element → List Tok) (node : Node y)
      → ((child : y.Element) → Writes (f child) (g child))
      → Writes (inline_node y rules f node) (node_tokens g node)
  unfolding inline_node
  Writes-inline_node f g (text t) h = Writes-render_text_runs y rules t
  Writes-inline_node f g (element child) h =
      Writes-inline_element (f child) (g child) child (get rules.nodes (y.tag child)) (h child)
  Writes-inline_node f g (fragment _) h = Emits-pure tt

  pub Writes-render_inline :
      (left : ℕ) (e : y.Element) → Writes (render_inline y rules left e) (inline_tokens left e)
  unfolding render_inline inline_tokens
  Writes-render_inline zero e =
      Emits-for_each (inline_node y rules (λ _. pure tt)) (node_tokens (λ _. [])) (y.children e)
        (λ node. Writes-inline_node (λ _. pure tt) (λ _. []) node (λ _. Emits-pure tt))
  Writes-render_inline (suc left) e =
      Emits-for_each (inline_node y rules (render_inline y rules left))
        (node_tokens (inline_tokens left)) (y.children e)
        (λ node.
          Writes-inline_node (render_inline y rules left) (inline_tokens left) node
            (Writes-render_inline left))
