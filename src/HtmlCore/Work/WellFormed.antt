-- ===== src/HtmlCore/Work/WellFormed.antt =====
-- Blocks of which every plan makes markup render to markup, and what rules emit is markup.
use yrby.Base.{
  ℕ, zero, suc, ◌≡◌, refl, sym, subst, ap, if◌then◌else◌, Bool, true, false, List, [], ◌++◌,
  append-nil, append_assoc, Str, codes, arith,
}
use yrby.HtmlCore.Segment.Tokens.{Tok, chars}
use yrby.HtmlCore.Template.{Content, blocks, inline, no_content, NodeRule, declarative, callback}
use yrby.HtmlCore.Markup.{
  IsName, IsVoid, Attributes, no_attributes, open_tag, close_tag, Markup, nothing, callback_node,
  element, void_element, sequence,
}
use yrby.HtmlCore.Markup.Build.{concat_map-Markup, if-Markup}
use yrby.HtmlCore.Markup.Named.{IsNamedNode, rule_attrs-Attributes}
use yrby.HtmlCore.RuleTag.Writes.{template_tokens, template_tokens-Markup}
use yrby.HtmlCore.Work.{RuleNode, has_content}
use yrby.HtmlCore.Work.Plan.{Plan, plan_tokens, tree_kids, tree_tokens}
use yrby.HtmlCore.Work.Rule.{content_plan, callback_plan, rule_plan, inline_rule_tokens}

-- An element whose head and children are emitted apart.
pub around :
    (name attrs : Str) (front kids : List Tok)
    → IsName name
    → Attributes attrs
    → Markup front
    → Markup kids
    → Markup ((chars (open_tag name attrs) ++ front) ++ (kids ++ chars (close_tag name)))
around name attrs front kids hn ha hf hk =
    subst Markup (regroup (chars (open_tag name attrs)) front kids (chars (close_tag name)))
      (element name attrs (front ++ kids) hn ha (sequence front kids hf hk))
  where
    regroup : (a b c d : List Tok) → a ++ ((b ++ c) ++ d) ≡ (a ++ b) ++ (c ++ d)
    regroup a b c d = simp append_assoc

-- A table's head stands in two elements.
pub tbody_around :
    (front kids : List Tok)
    → Markup front
    → Markup kids
    → Markup
        ((chars (codes "<table><tbody>") ++ front) ++ (kids ++ chars (codes "</tbody></table>")))
tbody_around front kids hf hk = subst Markup (regroup front kids) (
    element (codes "table") [] _ (ground arith) no_attributes (
      element (codes "tbody") [] (front ++ kids) (ground arith) no_attributes
        (sequence front kids hf hk)))
  where
    regroup :
        (a b : List Tok)
        → chars (codes "<table><tbody>")
            ++ (((a ++ b) ++ chars (codes "</tbody>")) ++ chars (codes "</table>"))
          ≡ (chars (codes "<table><tbody>") ++ a) ++ (b ++ chars (codes "</tbody></table>"))
    regroup a b = simp append_assoc

-- A plan that makes markup of any children that are markup.
abbrev pub PlanOk : Plan → Type 0
PlanOk p = (kids : List Tok) → Markup kids → Markup (plan_tokens kids p)

pub if-PlanOk :
    (b : Bool) (p q : Plan) → (b ≡ true → PlanOk p) → PlanOk q → PlanOk (if b then p else q)
if-PlanOk true p q hp hq = hp refl
if-PlanOk false p q hp hq = hq

module _ {E : Type 0} (children : E → List E) (plan : E → Plan)
    (planned : (e : E) → PlanOk (plan e)) where
  tree_kids-Markup : (left : ℕ) (e : E) → Markup (tree_kids children plan left e)
  unfolding tree_kids
  tree_kids-Markup zero e = nothing
  tree_kids-Markup (suc left) e =
      concat_map-Markup (λ c. plan_tokens (tree_kids children plan left c) (plan c)) (children e)
        (λ c. planned c (tree_kids children plan left c) (tree_kids-Markup left c))

  pub tree_tokens-Markup : (left : ℕ) (e : E) → Markup (tree_tokens children plan left e)
  tree_tokens-Markup left e = planned e (tree_kids children plan left e) (tree_kids-Markup left e)

module _ {E : Type 0} (node : RuleNode E) (whole beside : List Tok) (hw : Markup whole)
    (hb : Markup beside) where
  callback-PlanOk : (slot : Content) → PlanOk (callback_plan node whole beside slot)
  callback-PlanOk inline kids hk = callback_node _ _ _ (whole ++ []) (sequence whole [] hw nothing)
  callback-PlanOk blocks kids hk = callback_node _ _ _ (beside ++ kids) (sequence beside kids hb hk)
  callback-PlanOk no_content kids hk = callback_node _ _ _ [] nothing

  module _ (tag attrs : Str) (shown : List Tok) (hn : IsName tag) (ha : Attributes attrs)
      (hs : Markup shown) where
    content-PlanOk :
        (slot : Content)
        → PlanOk (content_plan node whole beside slot (chars (open_tag tag attrs) ++ shown) tag)
    content-PlanOk inline kids hk = around tag attrs shown whole hn ha hs hw
    content-PlanOk blocks kids hk =
        subst (λ ts. Markup (ts ++ (kids ++ chars (close_tag tag))))
          (sym (append_assoc (chars (open_tag tag attrs)) shown beside))
          (around tag attrs (shown ++ beside) kids hn ha (sequence shown beside hs hb) hk)
    content-PlanOk no_content kids hk = around tag attrs shown [] hn ha hs nothing

  pub rule-PlanOk : (rule : NodeRule) → IsNamedNode rule → PlanOk (rule_plan node whole beside rule)
  unfolding rule_plan
  rule-PlanOk (callback slot) n kids hk = callback-PlanOk slot kids hk
  rule-PlanOk (declarative tag void attrs template slot) n kids hk =
      let ok = rule_attrs-Attributes node.lookup attrs n.1 in
      if-PlanOk void _ _ (λ v _ _. void_element tag _ n.0 (n.2 v) ok)
        (content-PlanOk tag _ (template_tokens template node.lookup) n.0 ok
          (template_tokens-Markup template node.lookup) slot)
        kids hk

-- The tag of a declarative rule, around what is markup, or alone if it is void.
pub rule_element :
    (tag : Str) (attrs : Str) (void : Bool) (shown body : List Tok)
    → IsName tag
    → (void ≡ true → IsVoid tag)
    → Attributes attrs
    → Markup shown
    → Markup body
    → Markup (
        chars (open_tag tag attrs)
        ++ (if void then [] else shown ++ (body ++ chars (close_tag tag))))
rule_element tag attrs true shown body hn hv ha hs hb =
    subst Markup (sym (append-nil (chars (open_tag tag attrs))))
      (void_element tag attrs hn (hv refl) ha)
rule_element tag attrs false shown body hn hv ha hs hb =
    subst Markup
      (ap (λ ts. chars (open_tag tag attrs) ++ ts)
        (append_assoc shown body (chars (close_tag tag))))
      (element tag attrs (shown ++ body) hn ha (sequence shown body hs hb))

pub inline_rule-Markup :
    {E : Type 0} (node : RuleNode E) (ts : List Tok) (rule : NodeRule)
    → IsNamedNode rule
    → Markup ts
    → Markup (inline_rule_tokens node ts rule)
unfolding inline_rule_tokens
inline_rule-Markup node ts (callback slot) n h =
    callback_node node.node_type node.attrs_json node.child_types _
      (if-Markup (has_content slot) ts [] h nothing)
inline_rule-Markup node ts (declarative tag void attrs template slot) n h =
    rule_element tag _ void (template_tokens template node.lookup)
      (if has_content slot then ts else []) n.0 n.2 (rule_attrs-Attributes node.lookup attrs n.1)
      (template_tokens-Markup template node.lookup) (if-Markup (has_content slot) ts [] h nothing)
