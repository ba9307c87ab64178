-- ===== src/Lexical/Block/WellFormed.antt =====
-- What a block renders to is markup.
use yrby.Base.{
  ℕ, ◌≡◌, refl, sym, subst, if◌then◌else◌, Bool, true, false, Option, none, some, List, [], ◌∷◌,
  ◌++◌, append-nil, Str, codes, arith, get, is_one_of, any_of, str_eq, str_eq_sound, ◌||◌, All, inl,
  inr, Bool-cases,
}
use yrby.Base.Decimal.{show_ℤ, show_ℤ-IsNumeral}
use yrby.Base.Int.{ℤ}
use yrby.Yrs.{Yrs}
use yrby.HtmlCore.Segment.Tokens.{chars}
use yrby.HtmlCore.Template.{NodeRule, Rules}
use yrby.HtmlCore.Markup.{
  IsName, Attributes, no_attributes, attribute, Markup, nothing, element, sequence,
}
use yrby.HtmlCore.Markup.Build.{attr_text-Attributes, numeral-Attributes, Attributes-append}
use yrby.HtmlCore.Markup.Named.{IsNamed, IsNamedNode, Found, get-Found}
use yrby.HtmlCore.Work.WellFormed.{
  around, tbody_around, PlanOk, if-PlanOk, rule-PlanOk, tree_tokens-Markup,
}
use yrby.HtmlCore.Paragraph.{paragraph_tokens-Markup}
use yrby.Lexical.Nodes.{node_type, str_attr, block_children}
use yrby.Lexical.Inline.{max_inline_depth, text_node}
use yrby.Lexical.Inline.WellFormed.{br_Markup, inline_tokens-Markup}
use yrby.Lexical.Block.{
  Arm, paragraph, heading, quote, code, list, listitem, table, tablerow, tablecell, unknown, arm,
  heading_tags, heading_tag, is_ordered, item_value, item_checked, is_header, has_any,
}
use yrby.Lexical.Block.Plan.{
  language_text, checked_text, item_text, inline_of, holder, plan_arm, plan_by, plan,
  pushed_children, block_tokens,
}

language-Attributes : (o : Option Str) → Attributes (language_text o)
language-Attributes none = no_attributes
language-Attributes (some []) = no_attributes
language-Attributes (some (c ∷ lang)) =
    attr_text-Attributes (codes "data-language") (c ∷ lang) (ground arith)

checked-Attributes : (o : Option Bool) → Attributes (checked_text o)
checked-Attributes none = no_attributes
checked-Attributes (some true) =
    attribute (codes "aria-checked") (codes "true") [] (ground arith) (ground arith) no_attributes
checked-Attributes (some false) =
    attribute (codes "aria-checked") (codes "false") [] (ground arith) (ground arith) no_attributes

item-Attributes : (o : Option Bool) (n : ℤ) → Attributes (item_text o (show_ℤ n))
item-Attributes o n =
    Attributes-append (checked-Attributes o)
      (numeral-Attributes (codes "value") (show_ℤ n) (ground arith) (show_ℤ-IsNumeral n))

one_of-IsName :
    (names : List Str) (tag : Str) (b : Bool)
    → All IsName names
    → any_of (str_eq tag) names ≡ b
    → IsName (if b then tag else codes "h1")
one_of-IsName names tag false hs h = ground arith
one_of-IsName [] tag true hs h = cc
one_of-IsName (name ∷ names) tag true (hn, hs) h = elim (Bool-cases (str_eq tag name)) [
  | inl e ↦ subst IsName (sym (str_eq_sound tag name e)) hn
  | inr e ↦
      one_of-IsName names tag true hs (subst (λ b. (b || any_of (str_eq tag) names) ≡ true) e h)
]

heading_tag-IsName : (o : Option Str) → IsName (heading_tag o)
unfolding heading_tag is_one_of
heading_tag-IsName none = ground arith
heading_tag-IsName (some tag) =
    one_of-IsName heading_tags tag (any_of (str_eq tag) heading_tags)
      (
        ground arith,
        (ground arith, (ground arith, (ground arith, (ground arith, (ground arith, tt))))),
      )
      refl

if-IsName : (b : Bool) (s t : Str) → IsName s → IsName t → IsName (if b then s else t)
if-IsName true s t hs ht = hs
if-IsName false s t hs ht = ht

empty-Markup : Markup (chars (codes "<p><br></p>"))
empty-Markup = element (codes "p") [] (chars (codes "<br>")) (ground arith) no_attributes br_Markup

module _ (y : Yrs) (rules : Rules) (named : IsNamed rules) where
  inline-Markup : (ruled : Bool) (t : y.Text) → Markup (inline_of y rules ruled t)
  inline-Markup ruled t = inline_tokens-Markup y rules named max_inline_depth ruled t

  holder-PlanOk :
      (tag attrs : Str) (ruled : Bool) (t : y.Text)
      → IsName tag
      → Attributes attrs
      → PlanOk (holder y rules tag attrs ruled t)
  holder-PlanOk tag attrs ruled t hn ha kids hk =
      around tag attrs (inline_of y rules ruled t) kids hn ha (inline-Markup ruled t) hk

  arm-PlanOk : (a : Arm) (t : y.Text) → PlanOk (plan_arm y rules a t)
  unfolding plan_arm
  arm-PlanOk paragraph t kids hk =
      paragraph_tokens-Markup (codes "<p><br></p>") _ empty-Markup (inline-Markup true t)
  arm-PlanOk heading t kids hk =
      element _ [] _ (heading_tag-IsName (str_attr y t (codes "__tag"))) no_attributes
        (inline-Markup true t)
  arm-PlanOk quote t kids hk =
      element (codes "blockquote") [] _ (ground arith) no_attributes (inline-Markup true t)
  arm-PlanOk code t kids hk =
      element (codes "pre") _ _ (ground arith)
        (language-Attributes (str_attr y t (codes "__language"))) (inline-Markup true t)
  arm-PlanOk list t kids hk =
      holder-PlanOk _ [] false t
        (if-IsName (is_ordered (str_attr y t (codes "__tag"))) (codes "ol") (codes "ul")
          (ground arith) (ground arith))
        no_attributes kids hk
  arm-PlanOk listitem t kids hk =
      holder-PlanOk (codes "li") _ true t (ground arith)
        (item-Attributes (item_checked y (y.text_attribute t (codes "__checked")))
          (item_value y (y.text_attribute t (codes "__value"))))
        kids hk
  arm-PlanOk table t kids hk =
      tbody_around (inline_of y rules false t) kids (inline-Markup false t) hk
  arm-PlanOk tablerow t kids hk =
      holder-PlanOk (codes "tr") [] false t (ground arith) no_attributes kids hk
  arm-PlanOk tablecell t kids hk =
      holder-PlanOk _ [] false t
        (if-IsName (is_header y (y.text_attribute t (codes "__headerState"))) (codes "th")
          (codes "td") (ground arith) (ground arith))
        no_attributes kids hk
  arm-PlanOk unknown t kids hk =
      if-PlanOk (has_any y (block_children y t)) _ _
        (λ _ ks k.
          sequence (inline_of y rules false t) (ks ++ []) (inline-Markup false t)
            (subst Markup (sym (append-nil ks)) k))
        (λ ks k. paragraph_tokens-Markup [] _ nothing (inline-Markup true t)) kids hk

  by-PlanOk :
      (rule : Option NodeRule) (t : y.Text)
      → Found IsNamedNode rule
      → PlanOk (plan_by y rules rule t)
  by-PlanOk none t n kids hk = arm-PlanOk (arm (node_type y t)) t kids hk
  by-PlanOk (some rule) t n kids hk =
      rule-PlanOk (text_node y t) (inline_of y rules true t) (inline_of y rules false t)
        (inline-Markup true t) (inline-Markup false t) rule n kids hk

  plan-PlanOk : (t : y.Text) → PlanOk (plan y rules t)
  unfolding plan
  plan-PlanOk t =
      by-PlanOk (get rules.nodes (node_type y t)) t
        (get-Found IsNamedNode rules.nodes (node_type y t) named.nodes)

  -- A block renders to markup, whatever it holds and however deep it nests.
  pub block_tokens-Markup : (left : ℕ) (t : y.Text) → Markup (block_tokens y rules left t)
  block_tokens-Markup left t =
      tree_tokens-Markup (pushed_children y rules) (plan y rules) plan-PlanOk left t
