-- ===== src/HtmlCore/Flatten/Laws.antt =====
-- `flatten` joins exactly the outputs with no callback node, and shows what they show.
use yrby.Base.{
  ◌≡◌, refl, sym, ap, ◌∙◌, true, false, List, [], ◌∷◌, ◌++◌, append_assoc, append-nil, Str,
  Bool-cases, inl, inr,
}
use yrby.HtmlCore.Segment.{html, deferred, Segments, nil, cons}
use yrby.HtmlCore.Segment.Tokens.{Tok, ch, hole, chars, tokens, seg_tokens, chars-append}
use yrby.HtmlCore.Flatten.{
  Flattened, html_text, deferred_segments, any_deferred, joined, join, flatten,
}

joined-append : (out s : Str) → joined out s ≡ out ++ s
joined-append [] s = refl
joined-append (c ∷ out) s = refl

join-tokens :
    (out : Str) (x : Segments) → any_deferred x ≡ false → chars (join out x) ≡ chars out ++ tokens x
unfolding join any_deferred tokens seg_tokens
join-tokens out nil h = sym (append-nil (chars out))
join-tokens out (cons (html s) xs) h =
    join-tokens (joined out s) xs h
    ∙ ap (λ t. chars t ++ tokens xs) (joined-append out s)
    ∙ ap (λ ts. ts ++ tokens xs) (chars-append out s)
    ∙ append_assoc (chars out) (chars s) (tokens xs)
join-tokens out (cons (deferred ty attrs kinds content) xs) h = cc

-- The token is a callback node.
abbrev pub IsHole : Tok → Type 0
IsHole (ch c) = ⊥
IsHole (hole ty attrs kinds content) = Unit

-- A token of the sequence is a callback node.
abbrev pub HasHole : List Tok → Type 0
HasHole [] = ⊥
HasHole (ch c ∷ ts) = HasHole ts
HasHole (hole ty attrs kinds content ∷ ts) = Unit

HasHole-chars : (s : Str) (ts : List Tok) → HasHole ts → HasHole (chars s ++ ts)
HasHole-chars [] ts h = h
HasHole-chars (c ∷ s) ts h = HasHole-chars s ts h

any_deferred-HasHole : (x : Segments) → any_deferred x ≡ true → HasHole (tokens x)
unfolding any_deferred tokens seg_tokens
any_deferred-HasHole nil h = cc
any_deferred-HasHole (cons (html s) xs) h = HasHole-chars s (tokens xs) (any_deferred-HasHole xs h)
any_deferred-HasHole (cons (deferred ty attrs kinds content) xs) h = tt

-- What a flattened output is.
abbrev pub Flattens : Segments → Flattened → Type 0
Flattens x (html_text s) = chars s ≡ tokens x
Flattens x (deferred_segments segments) = (segments ≡ x) × HasHole (tokens x)

-- Finished markup comes out as one string with all its characters in order; segments with a
-- callback node come back as they are, and only those.
pub flatten-Flattens : (x : Segments) → Flattens x (flatten x)
unfolding flatten
flatten-Flattens x = elim (Bool-cases (any_deferred x)) [
  | inl e ↦ rw e (refl, any_deferred-HasHole x e)
  | inr e ↦ rw e (join-tokens [] x e)
]
