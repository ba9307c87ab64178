-- ===== src/ProseMirror/Block/Rendered.antt =====
-- Whole blocks, rule blocks included, render to markup.
use yrby.Base.{ℕ, Option, none, some, get}
use yrby.Yrs.{Yrs}
use yrby.HtmlCore.Template.{NodeRule, Rules}
use yrby.HtmlCore.Markup.{Markup}
use yrby.HtmlCore.Markup.Named.{IsNamed, IsNamedNode, Found, get-Found}
use yrby.ProseMirror.Inline.{element_children, max_depth, rule_node}
use yrby.ProseMirror.Inline.WellFormed.{inline_tokens-Markup}
use yrby.HtmlCore.Work.WellFormed.{PlanOk, rule-PlanOk, tree_tokens-Markup}
use yrby.ProseMirror.Arms.{arm}
use yrby.ProseMirror.Block.Plan.{stray_tokens, inline_of, plan_by, plan, block_tokens}
use yrby.ProseMirror.Block.WellFormed.{stray-Markup, arm-PlanOk}

module _ (y : Yrs) (rules : Rules) (named : IsNamed rules) where
  by-PlanOk :
      (rule : Option NodeRule) (e : y.Element)
      → Found IsNamedNode rule
      → PlanOk (plan_by y rules rule e)
  by-PlanOk none e n kids hk = arm-PlanOk y rules named (arm (y.tag e)) e kids hk
  by-PlanOk (some rule) e n kids hk =
      rule-PlanOk (rule_node y e) (inline_of y rules e) (stray_tokens y rules e)
        (inline_tokens-Markup y rules named max_depth e) (stray-Markup y rules named e) rule n kids
        hk

  plan-PlanOk : (e : y.Element) → PlanOk (plan y rules e)
  unfolding plan
  plan-PlanOk e =
      by-PlanOk (get rules.nodes (y.tag e)) e
        (get-Found IsNamedNode rules.nodes (y.tag e) named.nodes)

  -- A block renders to markup, whatever it holds and however deep it nests.
  pub block_tokens-Markup : (left : ℕ) (e : y.Element) → Markup (block_tokens y rules left e)
  block_tokens-Markup left e =
      tree_tokens-Markup (element_children y) (plan y rules) plan-PlanOk left e
