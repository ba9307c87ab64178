-- ===== src/HtmlCore/Plain.antt =====
-- Tokens without a callback node: what a document renders to without rules.
use yrby.Base.{
  ℕ, zero, suc, ◌≡◌, refl, sym, subst, if◌then◌else◌, Bool, true, false, Option, none, some, List,
  [], ◌∷◌, ◌++◌, concat_map, Str, codes,
}
use yrby.HtmlCore.Segment.{Segments, nil}
use yrby.HtmlCore.Segment.Tokens.{Tok, ch, hole, chars, emit, tokens, tokens-emit}
use yrby.HtmlCore.Flatten.{Flattened, html_text, deferred_segments, into_html, flatten}
use yrby.HtmlCore.Flatten.Laws.{HasHole, Flattens, flatten-Flattens}
use yrby.HtmlCore.Markup.{Markup}
use yrby.HtmlCore.Outcome.{Outcome, panics, returns, html_of, expect_html}
use yrby.HtmlCore.Work.Plan.{Plan, plan_tokens, tree_kids, tree_tokens}
use yrby.HtmlCore.Paragraph.{paragraph_tokens}

-- No token is a callback node.
abbrev pub IsPlain : List Tok → Type 0
IsPlain [] = Unit
IsPlain (ch c ∷ ts) = IsPlain ts
IsPlain (hole ty attrs kinds content ∷ ts) = ⊥

pub IsPlain-chars : (s : Str) → IsPlain (chars s)
IsPlain-chars [] = tt
IsPlain-chars (c ∷ s) = IsPlain-chars s

pub IsPlain-append : (ts us : List Tok) → IsPlain ts → IsPlain us → IsPlain (ts ++ us)
IsPlain-append [] us p q = q
IsPlain-append (ch c ∷ ts) us p q = IsPlain-append ts us p q
IsPlain-append (hole ty attrs kinds content ∷ ts) us p q = absurd p

pub then_chars : (s : Str) (us : List Tok) → IsPlain us → IsPlain (chars s ++ us)
then_chars s us q = IsPlain-append (chars s) us (IsPlain-chars s) q

pub IsPlain-concat_map :
    {A : Type 0} (f : A → List Tok) (xs : List A)
    → ((x : A) → IsPlain (f x))
    → IsPlain (concat_map f xs)
IsPlain-concat_map f [] h = tt
IsPlain-concat_map f (x ∷ xs) h =
    IsPlain-append (f x) (concat_map f xs) (h x) (IsPlain-concat_map f xs h)

pub IsPlain-if :
    (b : Bool) (ts us : List Tok) → IsPlain ts → IsPlain us → IsPlain (if b then ts else us)
IsPlain-if true ts us p q = p
IsPlain-if false ts us p q = q

pub around :
    (ts kids : List Tok) (s : Str) → IsPlain ts → IsPlain kids → IsPlain (ts ++ (kids ++ chars s))
around ts kids s p q =
    IsPlain-append ts (kids ++ chars s) p (IsPlain-append kids (chars s) q (IsPlain-chars s))

pub IsPlain-paragraph_tokens :
    (empty : Str) (ts : List Tok) → IsPlain ts → IsPlain (paragraph_tokens empty ts)
IsPlain-paragraph_tokens empty [] h = IsPlain-chars empty
IsPlain-paragraph_tokens empty (t ∷ ts) h = IsPlain-append (t ∷ ts) (chars (codes "</p>")) h tt

abbrev pub PlainPlan : Plan → Type 0
PlainPlan p = (kids : List Tok) → IsPlain kids → IsPlain (plan_tokens kids p)

pub if-PlainPlan :
    (b : Bool) (p q : Plan) → PlainPlan p → PlainPlan q → PlainPlan (if b then p else q)
if-PlainPlan true p q hp hq = hp
if-PlainPlan false p q hp hq = hq

module _ {E : Type 0} (children : E → List E) (plan : E → Plan)
    (planned : (e : E) → PlainPlan (plan e)) where
  kids-IsPlain : (left : ℕ) (e : E) → IsPlain (tree_kids children plan left e)
  unfolding tree_kids
  kids-IsPlain zero e = tt
  kids-IsPlain (suc left) e =
      IsPlain-concat_map _ (children e)
        (λ c. planned c (tree_kids children plan left c) (kids-IsPlain left c))

  -- Plans that are plain make plain trees.
  pub IsPlain-tree_tokens : (left : ℕ) (e : E) → IsPlain (tree_tokens children plan left e)
  IsPlain-tree_tokens left e = planned e (tree_kids children plan left e) (kids-IsPlain left e)

no_hole : (ts : List Tok) → IsPlain ts → HasHole ts → ⊥
no_hole [] p h = h
no_hole (ch c ∷ ts) p h = no_hole ts p h
no_hole (hole ty attrs kinds content ∷ ts) p h = p

-- A rendered string that is markup, for a document that is shaped for the renderer, or none for another.
abbrev pub IsRendered : Bool → Outcome (Option Str) → Type 0
IsRendered b panics = ⊥
IsRendered b (returns none) = b ≡ false
IsRendered b (returns (some s)) = (b ≡ true) × Markup (chars s)

flattened-IsRendered :
    (x : Segments) (r : Flattened)
    → IsPlain (tokens x)
    → Markup (tokens x)
    → Flattens x r
    → IsRendered true (expect_html (into_html r))
unfolding into_html
flattened-IsRendered x (html_text s) p h e = (refl, subst Markup (sym e) h)
flattened-IsRendered x (deferred_segments segments) p h e = absurd (no_hole (tokens x) p e.1)

-- What emits plain markup is rendered to a string, where the document is not declined.
pub declined-IsRendered :
    (b : Bool) (ts : List Tok)
    → IsPlain ts
    → Markup ts
    → IsRendered b (html_of (returns (if b then some (emit nil ts) else none)))
unfolding tokens
declined-IsRendered false ts p h = refl
declined-IsRendered true ts p h =
    flattened-IsRendered (emit nil ts) (flatten (emit nil ts))
      (subst IsPlain (sym (tokens-emit nil ts)) p) (subst Markup (sym (tokens-emit nil ts)) h)
      (flatten-Flattens (emit nil ts))
