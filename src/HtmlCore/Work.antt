-- ===== src/HtmlCore/Work.antt =====
-- The stack of block work that both renderers keep (ext/yrby/crates/prosemirror-html/src/lib.rs and
-- ext/yrby/crates/lexical-html/src/lib.rs declare it alike), and what a rule does in block and in
-- inline position. A renderer hands in how it opens a block and how it renders inline content.
pub mod Plan
pub mod Rounds
pub mod Walks
pub mod Rule
pub mod WellFormed
use yrby.Base.{
  ℕ, zero, suc, if◌then◌else◌, Bool, true, false, none, List, [], ◌∷◌, ◌++◌, foldl, reverse, Str,
  codes, Option,
}
use yrby.HtmlCore.Emitter.{
  Render, pure, ◌>>=◌, ◌>>◌, push_str, begin_frame, end_frame, emit_deferred,
}
use yrby.HtmlCore.Template.{Content, blocks, inline, no_content, NodeRule, declarative, callback}
use yrby.HtmlCore.RuleTag.{push_open_tag, push_template, push_close_tag}

-- The top of the stack, which is last in the source's vector, stands first in a list of work.
-- `open_node e left` has `left` for the depth limit less the depth.
pub data Work (E : Type 0) : Type 0 where
  open_node : E → ℕ → Work E
  close : Str → Work E
  close_owned : Str → Work E
  end_deferred : Str → Str → List Str → Work E

-- `for child in children.into_iter().rev() { stack.push(Work::Open(child, depth + 1)) }`, which
-- stands behind a test that the depth is below the limit.
unfoldable pub push_opens : {E : Type 0} → ℕ → List E → List (Work E) → List (Work E)
push_opens zero children stack = stack
push_opens (suc left) children stack =
    foldl (λ st child. open_node child left ∷ st) stack (reverse children)

-- What the source pushes onto the stack through `&mut`, these return.
abbrev pub Opener : Type 0 → Type 0
Opener E = E → ℕ → List (Work E) → Render (List (Work E))

module _ {E : Type 0} (open_block : Opener E) where
  abbrev step : (List (Work E) → Render (Unit {0})) → Work E → List (Work E) → Render (Unit {0})
  step continue (close tag) stack = push_str tag >> continue stack
  step continue (close_owned tag) stack = push_str tag >> continue stack
  step continue (end_deferred ty attrs kinds) stack =
      (do content ← end_frame; emit_deferred ty attrs kinds content) >> continue stack
  step continue (open_node e left) stack = open_block e left stack >>= continue

  -- `while let Some(work) = stack.pop()`, with fuel for the rounds; `none` where it runs out.
  unfoldable pub run_work : ℕ → List (Work E) → Render (Unit {0})
  run_work fuel [] = pure tt
  run_work zero (work ∷ stack) = λ _. none
  run_work (suc fuel) (work ∷ stack) = step (run_work fuel) work stack

-- A node that a rule applies to: its type, its attributes as JSON, the types of its children, its
-- attribute reader, and its block children.
pub record RuleNode (E : Type 0) : Type 0 where
  pub node_type : Str
  pub attrs_json : Str
  pub child_types : List Str
  pub lookup : Str → Option Str
  pub children : List E

-- A rule in block position: `whole` renders inline content that stands for the whole node, and
-- `beside` what stands beside the block children.
module _ {E : Type 0} (node : RuleNode E) (whole beside : Render (Unit {0})) (left : ℕ)
    (stack : List (Work E)) where
  abbrev callback_content : Content → List (Work E) → Render (List (Work E))
  callback_content inline st = do whole; pure st
  callback_content blocks st = do beside; pure (push_opens left node.children st)
  callback_content no_content st = pure st

  abbrev rule_content : Content → Str → Render (List (Work E))
  rule_content inline tag = do whole; push_close_tag tag; pure stack
  rule_content blocks tag = do
    beside
    pure (push_opens left node.children (close_owned (codes "</" ++ (tag ++ codes ">")) ∷ stack))
  rule_content no_content tag = do push_close_tag tag; pure stack

  unfoldable pub open_rule : NodeRule → Render (List (Work E))
  open_rule (callback slot) = do
    begin_frame
    callback_content slot (end_deferred node.node_type node.attrs_json node.child_types ∷ stack)
  open_rule (declarative tag void attrs template slot) = do
    push_open_tag tag attrs node.lookup
    if void then pure stack else do push_template template node.lookup; rule_content slot tag

abbrev pub has_content : Content → Bool
has_content blocks = true
has_content inline = true
has_content no_content = false

-- A rule in inline position: `deeper` renders the node's content, where the depth allows it.
unfoldable pub inline_rule :
    {E : Type 0} → RuleNode E → Render (Unit {0}) → NodeRule → Render (Unit {0})
inline_rule node deeper (callback slot) = do
  begin_frame
  (if has_content slot then deeper else pure tt)
  captured ← end_frame
  emit_deferred node.node_type node.attrs_json node.child_types captured
inline_rule node deeper (declarative tag void attrs template slot) = do
  push_open_tag tag attrs node.lookup
  if void then pure tt else do
    push_template template node.lookup
    (if has_content slot then deeper else pure tt)
    push_close_tag tag
