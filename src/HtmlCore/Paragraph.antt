-- ===== src/HtmlCore/Paragraph.antt =====
-- A paragraph around captured content, or a text in its place where nothing was captured.
use yrby.Base.{◌≡◌, subst, List, [], ◌∷◌, ◌++◌, Str, codes, arith}
use yrby.HtmlCore.Segment.{Segments, nil, cons}
use yrby.HtmlCore.Segment.Tokens.{Tok, chars, emit, tokens, tokens-emit}
use yrby.HtmlCore.Emitter.{Render, ◌>>◌, push_str, append}
use yrby.HtmlCore.Emitter.Emits.{Writes, Emits-push_str, Emits-append, seq}
use yrby.HtmlCore.Markup.{Markup, no_attributes, element}

-- The text may be empty, which pushes nothing.
-- `if inline.is_empty() { .. } else { push "<p>"; append(inline); push "</p>" }`
abbrev pub push_paragraph_or : Str → Segments → Render (Unit {0})
push_paragraph_or empty nil = push_str empty
push_paragraph_or empty (cons x xs) = do
  push_str (codes "<p>")
  append (cons x xs)
  push_str (codes "</p>")

abbrev pub paragraph_tokens : Str → List Tok → List Tok
paragraph_tokens empty [] = chars empty
paragraph_tokens empty (t ∷ ts) = chars (codes "<p>") ++ ((t ∷ ts) ++ chars (codes "</p>"))

shown :
    (empty : Str) (x : Segments) (t : Tok) (ts : List Tok)
    → tokens x ≡ t ∷ ts
    → Writes (push_paragraph_or empty x) (paragraph_tokens empty (t ∷ ts))
unfolding tokens
shown empty nil t ts e = cc
shown empty (cons x xs) t ts e =
    seq (Emits-push_str (codes "<p>"))
      (seq (subst (Writes _) e (Emits-append (cons x xs))) (Emits-push_str (codes "</p>")))

pub Writes-push_paragraph_or :
    (empty : Str) (ts : List Tok)
    → Writes (push_paragraph_or empty (emit nil ts)) (paragraph_tokens empty ts)
unfolding emit tokens
Writes-push_paragraph_or empty [] = Emits-push_str empty
Writes-push_paragraph_or empty (t ∷ ts) =
    shown empty (emit nil (t ∷ ts)) t ts (tokens-emit nil (t ∷ ts))

pub paragraph_tokens-Markup :
    (empty : Str) (ts : List Tok)
    → Markup (chars empty)
    → Markup ts
    → Markup (paragraph_tokens empty ts)
paragraph_tokens-Markup empty [] he h = he
paragraph_tokens-Markup empty (t ∷ ts) he h =
    element (codes "p") [] (t ∷ ts) (ground arith) no_attributes h
