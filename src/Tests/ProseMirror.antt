-- ===== src/Tests/ProseMirror.antt =====
-- The theorems on ProseMirror documents at concrete inputs, and runs of the model.
use yrby.Base.{
  ◌+◌, ◌≡◌, ◌≢◌, ◌↔◌, refl, true, some, List, [], ◌∷◌, codes, is_one_of, get, str_eq, arith,
}
use yrby.Base.Decimal.{show_ℕ}
use yrby.HtmlCore.Segment.{nil}
use yrby.HtmlCore.Segment.Tokens.{Tok, emit}
use yrby.HtmlCore.Emitter.{emitter}
use yrby.HtmlCore.Emitter.Emits.{Writes}
use yrby.HtmlCore.Markup.{Markup}
use yrby.HtmlCore.Url.{url_scheme}
use yrby.ProseMirror.Css.{hex_digit, hex_to_rgb}
use yrby.ProseMirror.Css.Hex.{hex_to_rgb-digits, hex_to_rgb-plus}
use yrby.ProseMirror.Marks.{link_schemes, link_value}
use yrby.HtmlCore.Url.Browser.{trims, starts, small, capital, letter, next, drops, line_feed, colon}
use yrby.ProseMirror.Marks.LinkSafe.{link_value-is_one_of}
use yrby.ProseMirror.Runs.{render_text_runs}
use yrby.ProseMirror.Runs.Nesting.{render_text_runs-Markup}
use yrby.ProseMirror.Arms.{arm, unknown}
use yrby.HtmlCore.Work.{open_node}
use yrby.ProseMirror.Block.{walk}
use yrby.ProseMirror.Block.Plan.{block_tokens, kids_cost}
use yrby.ProseMirror.Block.Walk.{walk-block_tokens}
use yrby.ProseMirror.Document.{render, is_builtin, is_prosemirror_shaped, render_segments}
use yrby.HtmlCore.Outcome.{returns, IsSound}
use yrby.HtmlCore.Plain.{IsRendered}
use yrby.ProseMirror.Document.Plain.{render-IsRendered}
use yrby.ProseMirror.Document.Builtin.{is_builtin-arm}
use yrby.ProseMirror.Document.Rendering.{
  document_tokens, render_segments-document_tokens, render_segments-IsSound,
}
use yrby.Samples.{sample, quote, marked, sample_rules, sample_rules-IsNamed}

render_segments-IsSound_example : IsSound (render_segments sample sample_rules 0)
render_segments-IsSound_example = render_segments-IsSound sample sample_rules 0 sample_rules-IsNamed

render_segments-document_tokens_example :
    render_segments sample sample_rules 0
    ≡ returns (some (emit nil (document_tokens sample sample_rules 0)))
unfolding is_prosemirror_shaped get
render_segments-document_tokens_example = render_segments-document_tokens sample sample_rules 0

walk-block_tokens_example :
    walk sample sample_rules
      (2 + kids_cost sample sample_rules 8 quote)
      (open_node quote 8 ∷ [])
      (emitter (nil ∷ []))
    ≡ some (tt, emitter (emit nil (block_tokens sample sample_rules 8 quote) ∷ []))
walk-block_tokens_example =
    walk-block_tokens sample sample_rules 8 (2 + kids_cost sample sample_rules 8 quote) quote nil []
      (ground arith)

render_text_runs-Markup_example :
    (ts : List Tok) × Writes (render_text_runs sample sample_rules marked) ts × Markup ts
render_text_runs-Markup_example =
    render_text_runs-Markup sample sample_rules sample_rules-IsNamed marked

-- "te" and "L:" around a newline, which the browser drops.
link_value-is_one_of_example : is_one_of link_schemes (codes "tel") ≡ true
unfolding url_scheme link_value str_eq is_one_of
link_value-is_one_of_example =
    link_value-is_one_of (32 ∷ 116 ∷ 101 ∷ 10 ∷ 76 ∷ 58 ∷ []) (codes "tel") (
      trims 32 _ _ (omega arith) (
        starts 116 116 _ _ (small 116 (omega arith) (omega arith)) (
          next 101 101 _ _ (letter 101 101 (small 101 (omega arith) (omega arith))) (
            drops 10 _ _ line_feed (
              next 76 108 _ _ (letter 76 108 (capital 76 (omega arith) (omega arith)))
                (colon []))))))

is_builtin-arm_example : (is_builtin (codes "table") ≡ true) ↔ (arm (codes "table") ≢ unknown)
is_builtin-arm_example = is_builtin-arm (codes "table")

hex_to_rgb-digits_example : hex_to_rgb (codes "#0a10fF") ≡ some (codes "rgb(10, 16, 255)")
unfolding hex_to_rgb hex_digit show_ℕ
hex_to_rgb-digits_example =
    hex_to_rgb-digits b'0' b'a' b'1' b'0' b'f' b'F' 0 10 1 0 15 15 refl refl refl refl refl refl

hex_to_rgb-plus_example : hex_to_rgb (codes "#+f+1+0") ≡ some (codes "rgb(15, 1, 0)")
unfolding hex_to_rgb hex_digit show_ℕ
hex_to_rgb-plus_example = hex_to_rgb-plus b'f' b'1' b'0' 15 1 0 refl refl refl

render-IsRendered_example : IsRendered (is_prosemirror_shaped sample 0) (render sample 0)
render-IsRendered_example = render-IsRendered sample 0
