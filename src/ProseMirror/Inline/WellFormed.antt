-- ===== src/ProseMirror/Inline/WellFormed.antt =====
-- Inline content is markup.
use yrby.Base.{
  is_one_of, str_eq, refl, ℕ, zero, suc, Option, none, some, List, [], ◌∷◌, Str, codes, get,
  concat_map, All, arith,
}
use yrby.Yrs.{Yrs, element, fragment, text, Node}
use yrby.HtmlCore.Segment.Tokens.{Tok, chars}
use yrby.HtmlCore.Template.{NodeRule, Rules}
use yrby.HtmlCore.Markup.{Attributes, no_attributes, Markup, nothing, void_element}
use yrby.HtmlCore.Markup.Build.{concat_map-Markup, if-Markup, Attributes-append}
use yrby.HtmlCore.Markup.Named.{
  IsNamed, IsNamedNode, Found, get-Found, resolved_text, resolved_text-Attributes,
}
use yrby.ProseMirror.Runs.Nesting.{run_tokens-Markup}
use yrby.HtmlCore.Work.WellFormed.{inline_rule-Markup}
use yrby.ProseMirror.Inline.{rule_node, str_attr, image_attrs}
use yrby.ProseMirror.Inline.Tokens.{image_text, element_tokens, node_tokens, inline_tokens}

br_Markup : Markup (chars (codes "<br>"))
unfolding is_one_of str_eq
br_Markup = void_element (codes "br") [] (ground arith) refl no_attributes

concat_map-Attributes :
    {A : Type 0} (f : A → Str) (xs : List A)
    → All (λ x. Attributes (f x)) xs
    → Attributes (concat_map f xs)
concat_map-Attributes f [] h = no_attributes
concat_map-Attributes f (x ∷ xs) (h, hs) = Attributes-append h (concat_map-Attributes f xs hs)

pub image_text-Markup : (lookup : Str → Option Str) → Markup (chars (image_text lookup))
unfolding is_one_of str_eq
image_text-Markup lookup = void_element (codes "img") _ (ground arith) refl (
    concat_map-Attributes (λ name. resolved_text name (lookup name)) image_attrs
      (
        resolved_text-Attributes (codes "src") (lookup (codes "src")) (ground arith),
        (
          resolved_text-Attributes (codes "alt") (lookup (codes "alt")) (ground arith),
          (resolved_text-Attributes (codes "title") (lookup (codes "title")) (ground arith), tt),
        ),
      ))

module _ (y : Yrs) (rules : Rules) (named : IsNamed rules) where
  element-Markup :
      (ts : List Tok) (child : y.Element) (rule : Option NodeRule)
      → Found IsNamedNode rule
      → Markup ts
      → Markup (element_tokens y rules ts child rule)
  element-Markup ts child (some rule) n h = inline_rule-Markup (rule_node y child) ts rule n h
  element-Markup ts child none n h =
      if-Markup _ _ _ br_Markup (if-Markup _ _ _ (image_text-Markup (str_attr y child)) h)

  node-Markup :
      (f : y.Element → List Tok) (node : Node y)
      → ((child : y.Element) → Markup (f child))
      → Markup (node_tokens y rules f node)
  node-Markup f (text t) h = run_tokens-Markup y rules named t
  node-Markup f (element child) h =
      element-Markup (f child) child (get rules.nodes (y.tag child))
        (get-Found IsNamedNode rules.nodes (y.tag child) named.nodes) (h child)
  node-Markup f (fragment _) h = nothing

  pub inline_tokens-Markup : (left : ℕ) (e : y.Element) → Markup (inline_tokens y rules left e)
  unfolding inline_tokens
  inline_tokens-Markup zero e =
      concat_map-Markup (node_tokens y rules (λ _. [])) (y.children e)
        (λ node. node-Markup (λ _. []) node (λ _. nothing))
  inline_tokens-Markup (suc left) e =
      concat_map-Markup (node_tokens y rules (inline_tokens y rules left)) (y.children e)
        (λ node. node-Markup (inline_tokens y rules left) node (inline_tokens-Markup left))
