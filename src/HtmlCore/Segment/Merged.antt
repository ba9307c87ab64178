-- ===== src/HtmlCore/Segment/Merged.antt =====
-- The form in which the emitter keeps a frame: no empty markup, and no two neighbours of markup.
use yrby.Base.{ℕ, ◌≡◌, refl, ◌∙◌, ap, List, [], ◌∷◌, append-nil, Str}
use yrby.HtmlCore.Segment.{html, deferred, Segments, nil, cons, push_seg, push_html}
use yrby.HtmlCore.Segment.Tokens.{
  Tok, ch, hole, chars, add, emit, seg_tokens, tokens, emit-append, emit-chars,
}

abbrev pub IsMerged : Segments → Type 0
IsMerged nil = Unit
IsMerged (cons (html []) xs) = ⊥
IsMerged (cons (html (c ∷ s)) nil) = Unit
IsMerged (cons (html (c ∷ s)) (cons (html t) xs)) = ⊥
IsMerged (cons (html (c ∷ s)) (cons (deferred ty attrs kinds content) xs)) = IsMerged xs
IsMerged (cons (deferred ty attrs kinds content) xs) = IsMerged xs

pub push_html-IsMerged :
    (c : ℕ) (s : Str) (x : Segments) → IsMerged x → IsMerged (push_html (c ∷ s) x)
unfolding push_html
push_html-IsMerged c s nil h = tt
push_html-IsMerged c s (cons (html []) xs) h = absurd h
push_html-IsMerged c s (cons (html (d ∷ t)) nil) h = tt
push_html-IsMerged c s (cons (html (d ∷ t)) (cons (html u) xs)) h = absurd h
push_html-IsMerged c s (cons (html (d ∷ t)) (cons (deferred ty attrs kinds content) xs)) h =
    push_html-IsMerged c s xs h
push_html-IsMerged c s (cons (deferred ty attrs kinds content) xs) h = push_html-IsMerged c s xs h

pub push_seg-IsMerged :
    (ty attrs : Str) (kinds : List Str) (content x : Segments)
    → IsMerged x
    → IsMerged (push_seg (deferred ty attrs kinds content) x)
unfolding push_seg
push_seg-IsMerged ty attrs kinds content nil h = tt
push_seg-IsMerged ty attrs kinds content (cons (html []) xs) h = absurd h
push_seg-IsMerged ty attrs kinds content (cons (html (d ∷ s)) nil) h = tt
push_seg-IsMerged ty attrs kinds content (cons (html (d ∷ s)) (cons (html t) xs)) h = absurd h
push_seg-IsMerged ty attrs kinds content (cons (html (d ∷ s)) (cons (deferred _ _ _ _) xs)) h =
    push_seg-IsMerged ty attrs kinds content xs h
push_seg-IsMerged ty attrs kinds content (cons (deferred _ _ _ _) xs) h =
    push_seg-IsMerged ty attrs kinds content xs h

add-IsMerged : (x : Segments) (t : Tok) → IsMerged x → IsMerged (add x t)
add-IsMerged x (ch c) h = push_html-IsMerged c [] x h
add-IsMerged x (hole ty attrs kinds content) h = push_seg-IsMerged ty attrs kinds content x h

pub emit-IsMerged : (x : Segments) (ts : List Tok) → IsMerged x → IsMerged (emit x ts)
unfolding emit
emit-IsMerged x [] h = h
emit-IsMerged x (t ∷ ts) h = emit-IsMerged (add x t) ts (add-IsMerged x t h)

emit-past_hole :
    (ty attrs : Str) (kinds : List Str) (content x : Segments) (ts : List Tok)
    → emit (cons (deferred ty attrs kinds content) x) ts
      ≡ cons (deferred ty attrs kinds content) (emit x ts)
unfolding emit push_html push_seg
emit-past_hole ty attrs kinds content x [] = refl
emit-past_hole ty attrs kinds content x (ch c ∷ ts) =
    emit-past_hole ty attrs kinds content (push_html (c ∷ []) x) ts
emit-past_hole ty attrs kinds content x (hole a b k d ∷ ts) =
    emit-past_hole ty attrs kinds content (push_seg (deferred a b k d) x) ts

emit-past_html :
    (s ty attrs : Str) (kinds : List Str) (content x : Segments) (ts : List Tok)
    → emit (cons (html s) (cons (deferred ty attrs kinds content) x)) ts
      ≡ cons (html s) (cons (deferred ty attrs kinds content) (emit x ts))
unfolding emit push_html push_seg
emit-past_html s ty attrs kinds content x [] = refl
emit-past_html s ty attrs kinds content x (ch c ∷ ts) =
    emit-past_html s ty attrs kinds content (push_html (c ∷ []) x) ts
emit-past_html s ty attrs kinds content x (hole a b k d ∷ ts) =
    emit-past_html s ty attrs kinds content (push_seg (deferred a b k d) x) ts

-- A merged vector is the one that its tokens make.
pub emit-tokens : (x : Segments) → IsMerged x → emit nil (tokens x) ≡ x
unfolding tokens seg_tokens push_html emit push_seg
emit-tokens nil h = refl
emit-tokens (cons (html []) xs) h = absurd h
emit-tokens (cons (html (c ∷ s)) nil) h =
    ap (emit nil) (append-nil (chars (c ∷ s))) ∙ emit-chars c s nil
emit-tokens (cons (html (c ∷ s)) (cons (html t) xs)) h = absurd h
emit-tokens (cons (html (c ∷ s)) (cons (deferred ty attrs kinds content) xs)) h =
    emit-append nil (chars (c ∷ s)) (hole ty attrs kinds content ∷ tokens xs)
    ∙ ap (λ y. emit y (hole ty attrs kinds content ∷ tokens xs)) (emit-chars c s nil)
    ∙ emit-past_html (c ∷ s) ty attrs kinds content nil (tokens xs)
    ∙ ap (λ z. cons (html (c ∷ s)) (cons (deferred ty attrs kinds content) z)) (emit-tokens xs h)
emit-tokens (cons (deferred ty attrs kinds content) xs) h =
    emit-past_hole ty attrs kinds content nil (tokens xs)
    ∙ ap (cons (deferred ty attrs kinds content)) (emit-tokens xs h)
