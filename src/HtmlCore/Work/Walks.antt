-- ===== src/HtmlCore/Work/Walks.antt =====
-- The walk over the stack emits what the recursion over the tree does.
use yrby.Base.{
  ℕ, zero, suc, ◌+◌, ◌≤◌, ◌≡◌, refl, sym, subst, ap, ◌∙◌, fun_ext, ◌-◌, Bool, true, false, some,
  List, [], ◌∷◌, ◌++◌, foldl, reverse, reverse-append, Str, concat_map, arith,
}
use mathlib.Core.List.{foldl-append}
use yrby.HtmlCore.Segment.{Segments}
use yrby.HtmlCore.Segment.Tokens.{Tok, chars, emit}
use yrby.HtmlCore.Emitter.{Emitter, emitter}
use yrby.HtmlCore.Work.{Work, open_node, push_opens, Opener, run_work}
use yrby.HtmlCore.Work.Plan.{
  Plan, leaf, container, frame, plan_tokens, tree_kids, tree_tokens, tree_cost, sum_of, closer,
  Opens,
}
use yrby.HtmlCore.Work.Rounds.{
  Walks, Walks-none, Walks-both, widened, leaf-Walked, Walks-closer, open-Walks, frame-Walks,
}

abbrev opened : {E : Type 0} → ℕ → List E → List (Work E)
opened left [] = []
opened left (c ∷ cs) = open_node c left ∷ opened left cs

push_all :
    {E : Type 0} (left : ℕ) (cs : List E) (stack : List (Work E))
    → foldl (λ st child. open_node child left ∷ st) stack (reverse cs) ≡ opened left cs ++ stack
push_all left [] stack = refl
push_all left (c ∷ cs) stack =
    rw (reverse-append (c ∷ []) cs, foldl-append)
      (ap (λ st. open_node c left ∷ st) (push_all left cs stack))

module _ {E : Type 0} (children : E → List E) (open_block : Opener E) (plan : E → Plan)
    (opens : (e : E) (left : ℕ) (stack : List (Work E))
      → Opens (children e) left stack (plan e) (open_block e left stack)) where
  module _ (e : E) (left cost : ℕ) (kids : List Tok)
      (below : Walks open_block (push_opens left (children e)) cost kids) where
    frame-cases :
        (with_kids : Bool) (head : List Tok) (ty attrs : Str) (kinds : List Str)
        → ((stack : List (Work E))
            → Opens
                (children e)
                left
                stack
                (frame head with_kids ty attrs kinds)
                (open_block e left stack))
        → Walks open_block
            (λ stack. open_node e left ∷ stack)
            (2 + cost)
            (plan_tokens kids (frame head with_kids ty attrs kinds))
    frame-cases true head ty attrs kinds h =
        frame-Walks open_block e left ty attrs kinds (push_opens left (children e)) head kids cost h
          below
    frame-cases false head ty attrs kinds h = widened open_block (omega arith) (
        frame-Walks open_block e left ty attrs kinds (λ stack. stack) head [] 0 h
          (Walks-none open_block))

    plan-Walks :
        (p : Plan)
        → ((stack : List (Work E)) → Opens (children e) left stack p (open_block e left stack))
        → Walks open_block (λ stack. open_node e left ∷ stack) (2 + cost) (plan_tokens kids p)
    plan-Walks (leaf ts) h = record {
      rounds = 1;
      bounded = omega arith;
      at = leaf-Walked open_block e left ts h;
    }
    plan-Walks (container head owned t) h = widened open_block (omega arith) (
        open-Walks open_block e left
          (λ stack. push_opens left (children e) (closer owned t ∷ stack)) head (kids ++ chars t)
          (cost + 1) h
          (Walks-both open_block (push_opens left (children e)) (λ stack. closer owned t ∷ stack)
            cost 1 kids (chars t) below (Walks-closer open_block owned t)))
    plan-Walks (frame head with_kids ty attrs kinds) h = frame-cases with_kids head ty attrs kinds h

    node-Walks :
        Walks open_block (λ stack. open_node e left ∷ stack) (2 + cost) (plan_tokens kids (plan e))
    node-Walks = plan-Walks (plan e) (λ stack. opens e left stack)

  opened-Walks :
      (left : ℕ) (cost : E → ℕ) (ts : E → List Tok) (cs : List E)
      → ((c : E) → Walks open_block (λ stack. open_node c left ∷ stack) (cost c) (ts c))
      → Walks open_block (λ stack. opened left cs ++ stack) (sum_of cost cs) (concat_map ts cs)
  opened-Walks left cost ts [] h = Walks-none open_block
  opened-Walks left cost ts (c ∷ cs) h =
      Walks-both open_block (λ stack. open_node c left ∷ stack) (λ stack. opened left cs ++ stack)
        (cost c) (sum_of cost cs) (ts c) (concat_map ts cs) (h c) (opened-Walks left cost ts cs h)

  kids-Walks :
      (left : ℕ) (e : E)
      → Walks open_block
          (push_opens left (children e))
          (tree_cost children left e)
          (tree_kids children plan left e)
  unfolding push_opens tree_cost tree_kids
  kids-Walks zero e = Walks-none open_block
  kids-Walks (suc left) e =
      subst
        (λ work.
          Walks open_block work (sum_of (λ c. 2 + tree_cost children left c) (children e))
            (concat_map (λ c. plan_tokens (tree_kids children plan left c) (plan c)) (children e)))
        (fun_ext (λ stack. sym (push_all left (children e) stack)))
        (opened-Walks left (λ c. 2 + tree_cost children left c)
          (λ c. plan_tokens (tree_kids children plan left c) (plan c)) (children e)
          (λ c.
            node-Walks c left (tree_cost children left c) (tree_kids children plan left c)
              (kids-Walks left c)))

  -- Enough fuel: two rounds for every node that is entered. Then the walk ends without a panic,
  -- and has emitted what the recursion over the tree says, whatever stands in the other frames.
  pub run_work-tree_tokens :
      (left fuel : ℕ) (e : E) (top : Segments) (rest : List Segments)
      → 2 + tree_cost children left e ≤ fuel
      → run_work open_block fuel (open_node e left ∷ []) (emitter (top ∷ rest))
        ≡ some (tt, emitter (emit top (tree_tokens children plan left e) ∷ rest))
  unfolding run_work
  run_work-tree_tokens left fuel e top rest h =
      let w =
        node-Walks e left (tree_cost children left e) (tree_kids children plan left e)
          (kids-Walks left e) in
      w.at fuel (fuel - w.rounds) (omega (arith, w.bounded)) [] top rest
      ∙ walk_end (fuel - w.rounds)
          (emitter (emit top (plan_tokens (tree_kids children plan left e) (plan e)) ∷ rest))
    where
      walk_end : (n : ℕ) (em : Emitter) → run_work open_block n [] em ≡ some (tt, em)
      walk_end zero em = refl
      walk_end (suc n) em = refl
