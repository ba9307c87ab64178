-- ===== src/ProseMirror/Runs/Nesting.antt =====
-- The tags of a text's runs nest: what a run opens is closed, innermost first.
use yrby.Base.{
  ℕ, zero, suc, ◌≡◌, refl, sym, ap, ◌∙◌, subst, Option, true, inl, inr, Bool-cases, List, [], ◌∷◌,
  ◌++◌, append_assoc, append-nil, reverse, reverse-append, str_eq_sound, All, arith,
}
use yrby.Yrs.{Yrs, Any, any, Output}
use yrby.HtmlCore.Segment.Tokens.{Tok, chars}
use yrby.HtmlCore.Escape.{escape_text}
use yrby.HtmlCore.Template.{Rules}
use yrby.HtmlCore.Markup.{Markup, nothing, element, sequence}
use yrby.HtmlCore.Markup.Build.{escaped-Markup}
use yrby.HtmlCore.Markup.Named.{IsNamed}
use yrby.ProseMirror.Marks.{Mark, Attrs, run_stack}
use yrby.ProseMirror.Marks.Paired.{IsMark, paired, run_stack-IsMark}
use yrby.HtmlCore.Emitter.Emits.{Writes}
use yrby.ProseMirror.Runs.{mark_eq, shared, drop, render_text_runs}
use yrby.ProseMirror.Runs.Tokens.{
  opens, closes, last_open, loop_tokens, run_tokens, Writes-render_text_runs,
}

-- The tokens are markup that also closes the marks, the first of them first.
data Closing : List Mark → List Tok → Type 0 where
  done : (ts : List Tok) → Markup ts → Closing [] ts
  close_first :
      (m : Mark) (ms : List Mark) (body rest : List Tok)
      → Markup body
      → Closing ms rest
      → Closing (m ∷ ms) (body ++ (chars m.1 ++ rest))

before :
    {ms : List Mark} {us : List Tok} (ts : List Tok)
    → Markup ts
    → Closing ms us
    → Closing ms (ts ++ us)
before ts h (done us k) = done (ts ++ us) (sequence ts us h k)
before ts h (close_first m ms body rest k c) =
    subst (Closing (m ∷ ms)) (append_assoc ts body (chars m.1 ++ rest))
      (close_first m ms (ts ++ body) rest (sequence ts body h k) c)

-- An element's own tags, around what is markup.
around :
    (m : Mark) (body : List Tok)
    → IsMark m
    → Markup body
    → Markup (chars m.0 ++ (body ++ chars m.1))
around m body (paired name attrs hn ha) h = element name attrs body hn ha h

opened :
    {ts : List Tok} (m : Mark) (ms : List Mark)
    → IsMark m
    → Closing (m ∷ ms) ts
    → Closing ms (chars m.0 ++ ts)
opened m ms h (close_first _ _ body rest k c) =
    subst (Closing ms) (regroup (chars m.0) body (chars m.1) rest)
      (before (chars m.0 ++ (body ++ chars m.1)) (around m body h k) c)
  where
    regroup : (a b c d : List Tok) → (a ++ (b ++ c)) ++ d ≡ a ++ (b ++ (c ++ d))
    regroup a b c d = simp append_assoc

closes-Closing :
    (xs ms : List Mark) (ts : List Tok) → Closing ms ts → Closing (xs ++ ms) (closes xs ++ ts)
closes-Closing [] ms ts h = h
closes-Closing (x ∷ xs) ms ts h =
    subst (Closing (x ∷ (xs ++ ms))) (sym (append_assoc (chars x.1) (closes xs) ts))
      (close_first x (xs ++ ms) [] (closes xs ++ ts) nothing (closes-Closing xs ms ts h))

reverse-cons : (x : Mark) (xs ms : List Mark) → reverse (x ∷ xs) ++ ms ≡ reverse xs ++ x ∷ ms
reverse-cons x xs ms =
    ap (λ l. l ++ ms) (reverse-append (x ∷ []) xs) ∙ append_assoc (reverse xs) (x ∷ []) ms

opens-Closing :
    (xs ms : List Mark) (ts : List Tok)
    → All IsMark xs
    → Closing (reverse xs ++ ms) ts
    → Closing ms (opens xs ++ ts)
opens-Closing [] ms ts h c = c
opens-Closing (x ∷ xs) ms ts (h, hs) c =
    subst (Closing ms) (sym (append_assoc (chars x.0) (opens xs) ts)) (
      opened x ms h
        (opens-Closing xs (x ∷ ms) ts hs (subst (λ l. Closing l ts) (reverse-cons x xs ms) c)))

All-drop : {A : Type 0} (P : A → Type 0) (n : ℕ) (xs : List A) → All P xs → All P (drop n xs)
All-drop P zero xs h = h
All-drop P (suc n) [] h = tt
All-drop P (suc n) (x ∷ xs) (h, hs) = All-drop P n xs hs

mark_eq_sound : (a b : Mark) → mark_eq a b ≡ true → a ≡ b
unfolding mark_eq
mark_eq_sound (a, b) (c, d) h = ground (arith, str_eq_sound a c, str_eq_sound b d)

-- What two stacks share stands in front of what is dropped.
shared_front :
    (as' bs : List Mark)
    → (p : List Mark) × (as' ≡ p ++ drop (shared as' bs) as') × (bs ≡ p ++ drop (shared as' bs) bs)
unfolding shared
shared_front [] bs = ([], refl, refl)
shared_front (a ∷ as') [] = ([], refl, refl)
shared_front (a ∷ as') (b ∷ bs) = elim (Bool-cases (mark_eq a b)) [
  | inl e ↦
      let (p, ea, eb) = shared_front as' bs in
      rw e ((a ∷ p, ap (λ l. a ∷ l) ea, (λ i. sym (mark_eq_sound a b e) i ∷ eb i)))
  | inr e ↦ rw e ([], refl, refl)
]

reverse-parts : (m p d : List Mark) → m ≡ p ++ d → reverse m ≡ reverse d ++ reverse p
reverse-parts m p d e = ap reverse e ∙ reverse-append p d

-- One run: `d` is closed, `d'` is opened, and `p` stays open.
run-Closing :
    (old new p d d' : List Mark) (shown rest : List Tok)
    → old ≡ p ++ d
    → new ≡ p ++ d'
    → All IsMark d'
    → Markup shown
    → Closing (reverse new) rest
    → Closing (reverse old) (closes (reverse d) ++ (opens d' ++ (shown ++ rest)))
run-Closing old new p d d' shown rest eo en marks h c =
    subst (λ l. Closing l (closes (reverse d) ++ (opens d' ++ (shown ++ rest))))
      (sym (reverse-parts old p d eo))
      (closes-Closing (reverse d) (reverse p) (opens d' ++ (shown ++ rest)) (
        opens-Closing d' (reverse p) (shown ++ rest) marks
          (before shown h (subst (λ l. Closing l rest) (reverse-parts new p d' en) c))))

regroup_run : (a b c d e : List Tok) → a ++ (b ++ (c ++ (d ++ e))) ≡ (a ++ (b ++ (c ++ d))) ++ e
regroup_run a b c d e = simp append_assoc

module _ (y : Yrs) (rules : Rules) (named : IsNamed rules) where
  loop-Closing :
      (open_marks : List Mark) (runs : List (Output y × Option (Attrs y.Float)))
      → Closing (reverse open_marks) (
          loop_tokens y rules open_marks runs
          ++ closes (reverse (last_open y rules open_marks runs)))
  unfolding loop_tokens last_open
  loop-Closing open_marks [] =
      subst (λ l. Closing l (closes (reverse open_marks))) (append-nil (reverse open_marks))
        (subst (Closing (reverse open_marks ++ [])) (append-nil (closes (reverse open_marks)))
          (closes-Closing (reverse open_marks) [] [] (done [] nothing)))
  loop-Closing open_marks ((any (Any.string s), attributes) ∷ runs) =
      let stack = run_stack y rules attributes in
      let (p, eo, en) = shared_front open_marks stack in
      let d = drop (shared open_marks stack) open_marks in
      let d' = drop (shared open_marks stack) stack in
      subst (Closing (reverse open_marks))
        (regroup_run (closes (reverse d)) (opens d') (chars (escape_text s))
          (loop_tokens y rules stack runs) (closes (reverse (last_open y rules stack runs))))
        (run-Closing open_marks stack p d d' (chars (escape_text s))
          (loop_tokens y rules stack runs ++ closes (reverse (last_open y rules stack runs))) eo en
          (All-drop IsMark (shared open_marks stack) stack
            (run_stack-IsMark y rules attributes named))
          (escaped-Markup s) (loop-Closing stack runs))
  loop-Closing open_marks ((any Any.null, attributes) ∷ runs) = loop-Closing open_marks runs
  loop-Closing open_marks ((any _, attributes) ∷ runs) = loop-Closing open_marks runs
  loop-Closing open_marks ((_, attributes) ∷ runs) = loop-Closing open_marks runs

  -- Whatever its runs and their marks, a text renders to markup.
  pub run_tokens-Markup : (t : y.Text) → Markup (run_tokens y rules t)
  unfolding run_tokens
  run_tokens-Markup t = at_none (loop-Closing [] (y.diff t))
    where
      at_none : {ts : List Tok} → Closing [] ts → Markup ts
      at_none (done ts h) = h

  -- Whatever its runs and their marks, a text is rendered without a panic, and what is pushed is
  -- markup: every tag that a run opens is closed, innermost first.
  pub render_text_runs-Markup :
      (t : y.Text) → (ts : List Tok) × Writes (render_text_runs y rules t) ts × Markup ts
  render_text_runs-Markup t =
      (run_tokens y rules t, Writes-render_text_runs y rules t, run_tokens-Markup t)
