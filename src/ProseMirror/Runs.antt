-- ===== src/ProseMirror/Runs.antt =====
-- `render_text_runs`: the runs of a text, with marks kept open across runs that share them.
pub mod Tokens
pub mod Nesting
use yrby.Base.{
  ℕ, zero, suc, ◌&&◌, if◌then◌else◌, Bool, true, false, Option, none, some, List, [], ◌∷◌, ◌++◌,
  reverse, Str, str_eq,
}
use yrby.Yrs.{Yrs, Any, Out, any, Stored, Output}
use yrby.HtmlCore.Emitter.{Render, pure, ◌>>=◌, ◌>>◌, push_str, for_each}
use yrby.HtmlCore.Escape.{escape_text}
use yrby.HtmlCore.Template.{Rules}
use yrby.ProseMirror.Marks.{Mark, Attrs, run_stack}

unfoldable pub mark_eq : Mark → Mark → Bool
mark_eq (a, b) (c, d) = str_eq a c && str_eq b d

-- `zip(…).take_while(|(a, b)| a == b).count()`
unfoldable pub shared : List Mark → List Mark → ℕ
unfolding mark_eq
shared [] bs = 0
shared (a ∷ as') [] = 0
shared (a ∷ as') (b ∷ bs) = if mark_eq a b then suc (shared as' bs) else 0

abbrev pub drop : {A : Type 0} → ℕ → List A → List A
drop zero xs = xs
drop (suc n) [] = []
drop (suc n) (x ∷ xs) = drop n xs

-- `for (_, close) in open.into_iter().rev() { em.push_str(&close) }`
unfoldable pub push_closes : List Mark → Render (Unit {0})
push_closes open_marks = for_each (λ m. push_str m.1) (reverse open_marks)

unfoldable pub push_opens : List Mark → Render (Unit {0})
push_opens marks = for_each (λ m. push_str m.0) marks

module _ (y : Yrs) (rules : Rules) where
  -- The loop over the runs, from the marks that are open to those that are open at its end.
  unfoldable pub run_loop :
      List Mark → List (Output y × Option (Attrs y.Float)) → Render (List Mark)
  run_loop open_marks [] = pure open_marks
  run_loop open_marks ((any (Any.string s), attributes) ∷ runs) =
      let stack = run_stack y rules attributes in
      let n = shared open_marks stack in
      do
        push_closes (drop n open_marks)
        push_opens (drop n stack)
        push_str (escape_text s)
        run_loop stack runs
  run_loop open_marks ((_, attributes) ∷ runs) = run_loop open_marks runs

  unfoldable pub render_text_runs : y.Text → Render (Unit {0})
  render_text_runs t = do open_marks ← run_loop [] (y.diff t); push_closes open_marks
