-- ===== src/ProseMirror/Runs/Tokens.antt =====
-- The tokens that the runs of a text emit.
use yrby.Base.{Option, List, [], ◌∷◌, ◌++◌, reverse, concat_map}
use yrby.Yrs.{Yrs, Any, any, Output}
use yrby.HtmlCore.Segment.Tokens.{Tok, chars}
use yrby.HtmlCore.Emitter.{push_str}
use yrby.HtmlCore.Emitter.Emits.{
  Emits, Writes, Emits-pure, Emits-push_str, Emits-bind, Emits-for_each, seq,
}
use yrby.HtmlCore.Escape.{escape_text}
use yrby.HtmlCore.Template.{Rules}
use yrby.ProseMirror.Marks.{Mark, Attrs, run_stack}
use yrby.ProseMirror.Runs.{shared, drop, push_closes, push_opens, run_loop, render_text_runs}

abbrev pub opens : List Mark → List Tok
opens = concat_map (λ m. chars m.0)

abbrev pub closes : List Mark → List Tok
closes = concat_map (λ m. chars m.1)

Writes-push_closes : (ms : List Mark) → Writes (push_closes ms) (closes (reverse ms))
unfolding push_closes
Writes-push_closes ms =
    Emits-for_each (λ m. push_str m.1) (λ m. chars m.1) (reverse ms) (λ m. Emits-push_str m.1)

Writes-push_opens : (ms : List Mark) → Writes (push_opens ms) (opens ms)
unfolding push_opens
Writes-push_opens ms =
    Emits-for_each (λ m. push_str m.0) (λ m. chars m.0) ms (λ m. Emits-push_str m.0)

module _ (y : Yrs) (rules : Rules) where
  -- The marks that are open behind the runs.
  unfoldable pub last_open : List Mark → List (Output y × Option (Attrs y.Float)) → List Mark
  last_open open_marks [] = open_marks
  last_open open_marks ((any (Any.string s), attributes) ∷ runs) =
      last_open (run_stack y rules attributes) runs
  last_open open_marks ((_, attributes) ∷ runs) = last_open open_marks runs

  -- Each run closes the open marks that it does not share, opens its own, and shows its text.
  unfoldable pub loop_tokens : List Mark → List (Output y × Option (Attrs y.Float)) → List Tok
  loop_tokens open_marks [] = []
  loop_tokens open_marks ((any (Any.string s), attributes) ∷ runs) =
      let stack = run_stack y rules attributes in
      let n = shared open_marks stack in
      closes (reverse (drop n open_marks))
      ++ (opens (drop n stack) ++ (chars (escape_text s) ++ loop_tokens stack runs))
  loop_tokens open_marks ((_, attributes) ∷ runs) = loop_tokens open_marks runs

  unfoldable pub run_tokens : y.Text → List Tok
  unfolding last_open loop_tokens
  run_tokens t = loop_tokens [] (y.diff t) ++ closes (reverse (last_open [] (y.diff t)))

  Emits-run_loop :
      (open_marks : List Mark) (runs : List (Output y × Option (Attrs y.Float)))
      → Emits
          (run_loop y rules open_marks runs)
          (last_open open_marks runs)
          (loop_tokens open_marks runs)
  unfolding run_loop last_open loop_tokens
  Emits-run_loop open_marks [] = Emits-pure open_marks
  Emits-run_loop open_marks ((any (Any.string s), attributes) ∷ runs) = seq (Writes-push_closes _) (
      seq (Writes-push_opens _)
        (seq (Emits-push_str _) (Emits-run_loop (run_stack y rules attributes) runs)))
  Emits-run_loop open_marks ((any Any.null, attributes) ∷ runs) = Emits-run_loop open_marks runs
  Emits-run_loop open_marks ((any _, attributes) ∷ runs) = Emits-run_loop open_marks runs
  Emits-run_loop open_marks ((_, attributes) ∷ runs) = Emits-run_loop open_marks runs

  pub Writes-render_text_runs : (t : y.Text) → Writes (render_text_runs y rules t) (run_tokens t)
  unfolding render_text_runs run_tokens
  Writes-render_text_runs t =
      Emits-bind (run_loop y rules [] (y.diff t)) push_closes (last_open [] (y.diff t)) tt
        (loop_tokens [] (y.diff t)) (closes (reverse (last_open [] (y.diff t))))
        (Emits-run_loop [] (y.diff t)) (Writes-push_closes (last_open [] (y.diff t)))
