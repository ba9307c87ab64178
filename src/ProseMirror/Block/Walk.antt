-- ===== src/ProseMirror/Block/Walk.antt =====
-- The walk over the stack emits what the recursion over the tree does.
use yrby.Base.{ℕ, ◌+◌, ◌≤◌, ◌≡◌, some, List, [], ◌∷◌}
use yrby.Yrs.{Yrs}
use yrby.HtmlCore.Segment.{Segments}
use yrby.HtmlCore.Segment.Tokens.{emit}
use yrby.HtmlCore.Emitter.{emitter}
use yrby.HtmlCore.Template.{Rules}
use yrby.HtmlCore.Work.{open_node}
use yrby.HtmlCore.Work.Walks.{run_work-tree_tokens}
use yrby.ProseMirror.Inline.{element_children}
use yrby.ProseMirror.Block.{open_block, walk}
use yrby.ProseMirror.Block.Plan.{plan, block_tokens, kids_cost}
use yrby.ProseMirror.Block.Opens.{open_block-Opens}

-- Enough fuel: two rounds for every node that is entered. Then the walk ends without a panic, and
-- has emitted what the recursion over the tree says, whatever stands in the other frames.
pub walk-block_tokens :
    (y : Yrs) (rules : Rules) (left fuel : ℕ) (e : y.Element) (top : Segments)
    (rest : List Segments)
    → 2 + kids_cost y rules left e ≤ fuel
    → walk y rules fuel (open_node e left ∷ []) (emitter (top ∷ rest))
      ≡ some (tt, emitter (emit top (block_tokens y rules left e) ∷ rest))
unfolding walk
walk-block_tokens y rules =
    run_work-tree_tokens (element_children y) (open_block y rules) (plan y rules)
      (open_block-Opens y rules)
