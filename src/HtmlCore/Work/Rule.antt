-- ===== src/HtmlCore/Work/Rule.antt =====
-- What a rule emits in block and in inline position.
use yrby.Base.{
  ℕ, refl, sym, subst, if◌then◌else◌, Bool, true, false, List, [], ◌∷◌, ◌++◌, append_assoc, Str,
}
use yrby.HtmlCore.Segment.{nil}
use yrby.HtmlCore.Segment.Tokens.{Tok, hole, chars, emit}
use yrby.HtmlCore.Emitter.{Render, pure, ◌>>=◌, begin_frame}
use yrby.HtmlCore.Emitter.Emits.{
  Emits, Writes, Emits-pure, Emits-emit_deferred, Emits-frame, Emits-if, seq, ending,
}
use yrby.HtmlCore.Template.{
  AttrPart, Content, blocks, inline, no_content, NodeRule, declarative, callback,
}
use yrby.HtmlCore.Markup.{open_tag, close_tag}
use yrby.HtmlCore.Markup.Named.{rule_attrs}
use yrby.HtmlCore.RuleTag.Writes.{
  template_tokens, Writes-push_open_tag, Writes-push_template, Writes-push_close_tag,
}
use yrby.HtmlCore.Work.{Work, RuleNode, rule_content, open_rule, has_content, inline_rule}
use yrby.HtmlCore.Work.Plan.{Plan, leaf, container, frame, Opens}

-- What a rule's opening tag and template emit, from the node's attributes.
abbrev pub rule_head : {E : Type 0} → RuleNode E → Str → List (Str × List AttrPart) → List Tok
rule_head node tag attrs = chars (open_tag tag (rule_attrs node.lookup attrs))

-- `whole` and `beside` are what the node's inline content emits, for the whole node or beside its
-- block children.
module _ {E : Type 0} (node : RuleNode E) (whole beside : List Tok) where
  abbrev pub content_plan : Content → List Tok → Str → Plan
  content_plan inline head tag = leaf (head ++ (whole ++ chars (close_tag tag)))
  content_plan blocks head tag = container (head ++ beside) true (close_tag tag)
  content_plan no_content head tag = leaf (head ++ chars (close_tag tag))

  abbrev pub callback_plan : Content → Plan
  callback_plan inline = frame whole false node.node_type node.attrs_json node.child_types
  callback_plan blocks = frame beside true node.node_type node.attrs_json node.child_types
  callback_plan no_content = frame [] false node.node_type node.attrs_json node.child_types

  unfoldable pub rule_plan : NodeRule → Plan
  rule_plan (callback slot) = callback_plan slot
  rule_plan (declarative tag void attrs template slot) =
      let head = rule_head node tag attrs in
      if void
      then leaf head
      else content_plan slot (head ++ template_tokens template node.lookup) tag

grouped :
    {A : Type 0} {m : Render A} {a : A} (ts us vs : List Tok)
    → Emits m a (ts ++ (us ++ vs))
    → Emits m a ((ts ++ us) ++ vs)
grouped {m = m} {a = a} ts us vs h = subst (Emits m a) (sym (append_assoc ts us vs)) h

module _ {E : Type 0} (node : RuleNode E) (m n : Render (Unit {0})) (whole beside : List Tok)
    (hm : Writes m whole) (hn : Writes n beside) (left : ℕ) (stack : List (Work E)) where
  content-Opens :
      (slot : Content) (o t : Render (Unit {0})) (ts us : List Tok) (tag : Str)
      → Writes o ts
      → Writes t us
      → Opens node.children left stack
          (content_plan node whole beside slot (ts ++ us) tag)
          (o >>= λ _. t >>= λ _. rule_content node m n left stack slot tag)
  content-Opens inline o t ts us tag ho ht =
      grouped ts us _ (seq ho (seq ht (seq hm (ending stack (Writes-push_close_tag tag)))))
  content-Opens blocks o t ts us tag ho ht = grouped ts us _ (seq ho (seq ht (ending _ hn)))
  content-Opens no_content o t ts us tag ho ht =
      grouped ts us _ (seq ho (seq ht (ending stack (Writes-push_close_tag tag))))

  declarative-Opens :
      (void : Bool) (slot : Content) (o t : Render (Unit {0})) (ts us : List Tok) (tag : Str)
      → Writes o ts
      → Writes t us
      → Opens node.children left stack
          (if void then leaf ts else content_plan node whole beside slot (ts ++ us) tag)
          (o >>= λ _.
            if void then pure stack else t >>= λ _. rule_content node m n left stack slot tag)
  declarative-Opens true slot o t ts us tag ho ht = ending stack ho
  declarative-Opens false slot o t ts us tag ho ht = content-Opens slot o t ts us tag ho ht

  -- A rule opens its block by its plan.
  pub open_rule-Opens :
      (rule : NodeRule)
      → Opens node.children left stack
          (rule_plan node whole beside rule)
          (open_rule node m n left stack rule)
  unfolding open_rule rule_plan ◌>>=◌ begin_frame emit
  open_rule-Opens (callback inline) = λ top rest. rw hm.at
  open_rule-Opens (callback blocks) = λ top rest. rw hn.at
  open_rule-Opens (callback no_content) = λ top rest. refl
  open_rule-Opens (declarative tag void attrs template slot) =
      declarative-Opens void slot _ _ _ _ tag (Writes-push_open_tag tag attrs node.lookup)
        (Writes-push_template template node.lookup)

-- `deeper` is what the node's content emits.
unfoldable pub inline_rule_tokens : {E : Type 0} → RuleNode E → List Tok → NodeRule → List Tok
inline_rule_tokens node deeper (callback slot) =
    hole node.node_type node.attrs_json node.child_types
      (emit nil (if has_content slot then deeper else []))
    ∷ []
inline_rule_tokens node deeper (declarative tag void attrs template slot) =
    rule_head node tag attrs
    ++ (if void
        then []
        else template_tokens template node.lookup
          ++ ((if has_content slot then deeper else []) ++ chars (close_tag tag)))

pub Writes-inline_rule :
    {E : Type 0} (node : RuleNode E) (m : Render (Unit {0})) (ts : List Tok) (rule : NodeRule)
    → Writes m ts
    → Writes (inline_rule node m rule) (inline_rule_tokens node ts rule)
unfolding inline_rule inline_rule_tokens
Writes-inline_rule node m ts (callback slot) h =
    Emits-frame (if has_content slot then m else pure tt) _ tt (if has_content slot then ts else [])
      _ (Emits-if (has_content slot) m (pure tt) tt ts [] h (Emits-pure tt))
      (Emits-emit_deferred _ _ _ _)
Writes-inline_rule node m ts (declarative tag void attrs template slot) h =
    seq (Writes-push_open_tag tag attrs node.lookup) (
      Emits-if void (pure tt) _ tt [] _ (Emits-pure tt) (
        seq (Writes-push_template template node.lookup) (
          seq (Emits-if (has_content slot) m (pure tt) tt ts [] h (Emits-pure tt))
            (Writes-push_close_tag tag))))
