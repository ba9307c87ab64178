-- ===== src/HtmlCore/Segment/Tokens.antt =====
-- Output as a sequence of tokens, which forgets where segments are cut.
use yrby.Base.{
  ℕ, ◌≡◌, refl, sym, ◌∙◌, ◌≡⟨◌⟩◌, ◌∎, List, [], ◌∷◌, ◌++◌, append_assoc, append-nil, Str,
}
use yrby.HtmlCore.Segment.{Segment, html, deferred, Segments, nil, cons, push_seg, push_html}

-- A character of finished markup, or a callback node.
pub data Tok : Type 0 where
  ch : ℕ → Tok
  hole : Str → Str → List Str → Segments → Tok

abbrev pub chars : Str → List Tok
chars [] = []
chars (c ∷ s) = ch c ∷ chars s

-- One token more at the end of a frame.
abbrev pub add : Segments → Tok → Segments
add s (ch c) = push_html (c ∷ []) s
add s (hole ty attrs kinds content) = push_seg (deferred ty attrs kinds content) s

unfoldable pub emit : Segments → List Tok → Segments
emit s [] = s
emit s (t ∷ ts) = emit (add s t) ts

unfoldable pub seg_tokens : Segment → List Tok
seg_tokens (html s) = chars s
seg_tokens (deferred ty attrs kinds content) = hole ty attrs kinds content ∷ []

unfoldable pub tokens : Segments → List Tok
tokens nil = []
tokens (cons x xs) = seg_tokens x ++ tokens xs

pub chars-append : (s t : Str) → chars (s ++ t) ≡ chars s ++ chars t
chars-append [] t = refl
chars-append (c ∷ s) t = λ i. ch c ∷ chars-append s t i

pub emit-append : (s : Segments) (ts us : List Tok) → emit s (ts ++ us) ≡ emit (emit s ts) us
unfolding emit
emit-append s [] us = refl
emit-append s (t ∷ ts) us = emit-append (add s t) ts us

-- A push goes past a segment that others follow.
push_html-skip :
    (s u : Str) (t : Str) (y : Segment) (ys : Segments)
    → push_html s (cons (html t) (push_html u (cons y ys)))
      ≡ cons (html t) (push_html s (push_html u (cons y ys)))
unfolding push_html
push_html-skip s u t (html v) nil = refl
push_html-skip s u t (html v) (cons z zs) = refl
push_html-skip s u t (deferred ty attrs kinds content) ys = refl

-- Text pushed in two parts lands as the text pushed at once.
pub push_html-append :
    (s u : Str) (x : Segments) → push_html (s ++ u) x ≡ push_html u (push_html s x)
unfolding push_html
push_html-append s u nil = refl
push_html-append s u (cons (html t) nil) = λ i. cons (html (sym (append_assoc t s u) i)) nil
push_html-append s u (cons (html t) (cons y ys)) =
    (λ i. cons (html t) (push_html-append s u (cons y ys) i)) ∙ sym (push_html-skip u s t y ys)
push_html-append s u (cons (deferred ty attrs kinds content) ys) =
    λ i. cons (deferred ty attrs kinds content) (push_html-append s u ys i)

-- A string pushed is its characters pushed one by one.
pub emit-chars : (c : ℕ) (s : Str) (x : Segments) → emit x (chars (c ∷ s)) ≡ push_html (c ∷ s) x
unfolding emit
emit-chars c [] x = refl
emit-chars c (d ∷ s) x =
    emit-chars d s (push_html (c ∷ []) x) ∙ sym (push_html-append (c ∷ []) (d ∷ s) x)

tokens-push_html : (s : Str) (x : Segments) → tokens (push_html s x) ≡ tokens x ++ chars s
unfolding push_html tokens seg_tokens
tokens-push_html s nil = append-nil (chars s)
tokens-push_html s (cons (html t) nil) = simp (append-nil, chars-append)
tokens-push_html s (cons (html t) (cons y ys)) = simp (tokens-push_html s (cons y ys), append_assoc)
tokens-push_html s (cons (deferred ty attrs kinds content) ys) =
    λ i. hole ty attrs kinds content ∷ tokens-push_html s ys i

tokens-push_seg : (y : Segment) (x : Segments) → tokens (push_seg y x) ≡ tokens x ++ seg_tokens y
unfolding push_seg tokens
tokens-push_seg y nil = append-nil (seg_tokens y)
tokens-push_seg y (cons z zs) = simp (tokens-push_seg y zs, append_assoc)

tokens-add : (x : Segments) (t : Tok) → tokens (add x t) ≡ tokens x ++ t ∷ []
unfolding seg_tokens
tokens-add x (ch c) = tokens-push_html (c ∷ []) x
tokens-add x (hole ty attrs kinds content) = tokens-push_seg (deferred ty attrs kinds content) x

-- What is emitted is what the frame then holds, behind what it held before.
pub tokens-emit : (x : Segments) (ts : List Tok) → tokens (emit x ts) ≡ tokens x ++ ts
unfolding emit
tokens-emit x [] = sym (append-nil (tokens x))
tokens-emit x (t ∷ ts) =
    tokens (emit (add x t) ts)
    ≡⟨ tokens-emit (add x t) ts ⟩ tokens (add x t) ++ ts
    ≡⟨ (rw tokens-add (append_assoc (tokens x) (t ∷ []) ts)) ⟩ tokens x ++ t ∷ ts ∎
