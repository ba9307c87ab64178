-- ===== src/HtmlCore/Work/Plan.antt =====
-- What opening a block does: what it emits at once, and what it leaves on the stack. The whole
-- rendering then is a recursion over the tree, with no stack.
use yrby.Base.{
  ℕ, zero, suc, ◌+◌, ◌≡◌, if◌then◌else◌, Bool, true, false, some, List, [], ◌∷◌, ◌++◌, Str,
  concat_map,
}
use yrby.HtmlCore.Segment.{Segments, nil}
use yrby.HtmlCore.Segment.Tokens.{Tok, hole, chars, emit}
use yrby.HtmlCore.Emitter.{Render, emitter}
use yrby.HtmlCore.Emitter.Emits.{Emits}
use yrby.HtmlCore.Work.{Work, close, close_owned, end_deferred, push_opens}

pub data Plan : Type 0 where
  -- The block is emitted whole.
  leaf : List Tok → Plan
  -- The head is emitted; the children and the closing text stand on the stack. The closing text is
  -- computed from a rule's tag where the flag is set.
  container : List Tok → Bool → Str → Plan
  -- A frame is begun and holds the tokens; the stack has the children, if the flag is set, and
  -- the seal of the callback node.
  frame : List Tok → Bool → Str → Str → List Str → Plan

abbrev pub plan_tokens : List Tok → Plan → List Tok
plan_tokens kids (leaf ts) = ts
plan_tokens kids (container head owned close_text) = head ++ (kids ++ chars close_text)
plan_tokens kids (frame head with_kids ty attrs kinds) =
    hole ty attrs kinds (emit nil (head ++ (if with_kids then kids else []))) ∷ []

abbrev pub sum_of : {E : Type 0} → (E → ℕ) → List E → ℕ
sum_of f [] = 0
sum_of f (c ∷ cs) = f c + sum_of f cs

module _ {E : Type 0} (children : E → List E) (plan : E → Plan) where
  -- A node's children, where `left` levels more may be entered.
  unfoldable pub tree_kids : ℕ → E → List Tok
  tree_kids zero e = []
  tree_kids (suc left) e = concat_map (λ c. plan_tokens (tree_kids left c) (plan c)) (children e)

  -- A block and everything under it.
  abbrev pub tree_tokens : ℕ → E → List Tok
  tree_tokens left e = plan_tokens (tree_kids left e) (plan e)

-- Rounds that are enough for a node's children: two for each node that is entered.
unfoldable pub tree_cost : {E : Type 0} → (E → List E) → ℕ → E → ℕ
tree_cost children zero e = 0
tree_cost children (suc left) e = sum_of (λ c. 2 + tree_cost children left c) (children e)

abbrev pub closer : {E : Type 0} → Bool → Str → Work E
closer true t = close_owned t
closer false t = close t

module _ {E : Type 0} (kids : List E) (left : ℕ) (stack : List (Work E)) where
  -- `m` opens the block by the plan, with these children.
  abbrev pub Opens : Plan → Render (List (Work E)) → Type 0
  Opens (leaf ts) m = Emits m stack ts
  Opens (container head owned close_text) m =
      Emits m (push_opens left kids (closer owned close_text ∷ stack)) head
  Opens (frame head with_kids ty attrs kinds) m =
      (top : Segments) (rest : List Segments)
      → m (emitter (top ∷ rest))
        ≡ some (
          if with_kids
              then push_opens left kids (end_deferred ty attrs kinds ∷ stack)
              else end_deferred ty attrs kinds ∷ stack,
          emitter (emit nil head ∷ top ∷ rest),
        )

  pub if-Opens :
      (b : Bool) (p q : Plan) (m n : Render (List (Work E)))
      → Opens p m
      → Opens q n
      → Opens (if b then p else q) (if b then m else n)
  if-Opens true p q m n hm hn = hm
  if-Opens false p q m n hm hn = hn
