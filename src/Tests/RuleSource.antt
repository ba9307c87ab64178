-- ===== src/Tests/RuleSource.antt =====
-- The theorems on parsed rules at concrete inputs, and a run of the model.
use yrby.Base.{◌≡◌, refl, false, none, some, [], ◌∷◌, Str, codes}
use yrby.Base.Result.{ok, err}
use yrby.HtmlCore.Template.{lit, ref, inline, declarative, MarkRule}
use yrby.HtmlCore.RuleSource.{object, empty, lookup, parse_node_rule, parse_mark_rule}
use yrby.HtmlCore.RuleSource.Compiled.{NodeSpec, markup, node_json, mark_json}
use yrby.HtmlCore.RuleSource.Printed.{parse_node_rule-node_json, parse_mark_rule-mark_json}

abbrev quoted : Str → Str
quoted s = s

-- A rule that gives neither `void` nor `contains`.
abbrev aside : NodeSpec
aside =
    markup (codes "aside") false (some ((codes "data-kind", ref (codes "kind") ∷ []) ∷ []))
      (some (lit (codes "!") ∷ [])) none

abbrev comment : MarkRule
comment = record { tag = codes "span"; attrs = (codes "data-id", ref (codes "id") ∷ []) ∷ [] }

parse_node_rule-node_json_example :
    parse_node_rule quoted (codes "callout") (node_json aside)
    ≡ ok (
        declarative
          (codes "aside")
          false
          ((codes "data-kind", ref (codes "kind") ∷ []) ∷ [])
          (some (lit (codes "!") ∷ []))
          inline)
parse_node_rule-node_json_example = parse_node_rule-node_json quoted (codes "callout") aside

parse_mark_rule-mark_json_example :
    parse_mark_rule quoted (codes "comment") (mark_json comment) ≡ ok comment
parse_mark_rule-mark_json_example = parse_mark_rule-mark_json quoted (codes "comment") comment

-- A rule with neither a tag nor a callback is refused.
parse_node_rule-untagged :
    parse_node_rule quoted (codes "x") (object empty)
    ≡ err (codes "rule for x needs a tag (or a callback)")
unfolding parse_node_rule lookup
parse_node_rule-untagged = refl
