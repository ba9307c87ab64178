-- ===== src/Tests/Lexical.antt =====
-- The theorems on Lexical documents at concrete inputs, and runs of the model.
use yrby.Base.{arith, ◌≡◌, ◌||◌, ◌⊎◌, refl, true, some, [], codes, any_of, is_one_of, str_eq, get}
use yrby.HtmlCore.Segment.Tokens.{chars}
use yrby.HtmlCore.Markup.{Markup}
use yrby.HtmlCore.Url.{split_once, url_scheme}
use yrby.HtmlCore.Escape.{escape_text, replace}
use yrby.Lexical.Run.{has_format, format_wrap, lexxy_style, render_run}
use yrby.Lexical.Run.WellFormed.{render_run-Markup}
use yrby.HtmlCore.Url.Browser.{starts, small, letter, next, colon}
use yrby.Lexical.Href.{lexical_schemes, safe_href, safe_href-is_one_of}
use yrby.Lexical.Nodes.{is_typed, is_lexical_shaped}
use yrby.Lexical.Nodes.Shaped.{is_nil, is_lexical_shaped-any_of}
use yrby.ProseMirror.Document.{is_prosemirror_shaped}
use yrby.ProseMirror.Types.{collect_node_types}
use yrby.HtmlCore.TypeMap.Keeps.{IsCollected}
use yrby.ProseMirror.Types.Returns.{collect_node_types-IsCollected}
use yrby.HtmlCore.Segment.{nil}
use yrby.HtmlCore.Segment.Tokens.{emit}
use yrby.HtmlCore.Outcome.{IsSound, returns}
use yrby.HtmlCore.Plain.{IsRendered}
use yrby.Lexical.Document.{render_segments, render}
use yrby.Lexical.Document.Rendering.{document_tokens, lexical-document_tokens, lexical-IsSound}
use yrby.Lexical.Document.Plain.{lexical-IsRendered}
use yrby.Lexical.Types
use yrby.Lexical.Types.Returns.{lexical-IsCollected}
use yrby.Samples.{sample}
use yrby.Samples.Notes.{notes, note_rules, note_rules-IsNamed}

lexical-IsSound_example : IsSound (render_segments notes note_rules 0)
lexical-IsSound_example = lexical-IsSound notes note_rules 0 note_rules-IsNamed

lexical-document_tokens_example :
    render_segments notes note_rules 0
    ≡ returns (some (emit nil (document_tokens notes note_rules 0)))
unfolding is_lexical_shaped get str_eq
lexical-document_tokens_example = lexical-document_tokens notes note_rules 0

lexical-IsRendered_example : IsRendered (is_lexical_shaped notes 0) (render notes 0)
lexical-IsRendered_example = lexical-IsRendered notes 0

lexical-IsCollected_example :
    IsCollected (is_lexical_shaped notes 0) (Types.collect_node_types notes 0)
lexical-IsCollected_example = lexical-IsCollected notes 0

render_run-Markup_example : Markup (chars (render_run (codes "a<b") 3 (codes "color: red; x: y")))
render_run-Markup_example = render_run-Markup (codes "a<b") 3 (codes "color: red; x: y")

safe_href-is_one_of_example :
    (is_one_of lexical_schemes (codes "sms") ≡ true)
    ⊎ (safe_href (codes "sms:1") ≡ codes "about:blank")
unfolding safe_href url_scheme is_one_of str_eq
safe_href-is_one_of_example = safe_href-is_one_of (codes "sms:1") (codes "sms") (
    starts 115 115 _ _ (small 115 (omega arith) (omega arith)) (
      next 109 109 _ _ (letter 109 109 (small 109 (omega arith) (omega arith))) (
        next 115 115 _ _ (letter 115 115 (small 115 (omega arith) (omega arith)))
          (colon (codes "1")))))

is_lexical_shaped-any_of_example :
    is_lexical_shaped notes 0 ≡ (is_nil (notes.roots 0) || any_of (is_typed notes) (notes.roots 0))
is_lexical_shaped-any_of_example = is_lexical_shaped-any_of notes 0

collect_node_types-IsCollected_example :
    IsCollected (is_prosemirror_shaped sample 0) (collect_node_types sample 0)
collect_node_types-IsCollected_example = collect_node_types-IsCollected sample 0

-- A run in bold and italic, and a style of which one declaration stays.
render_run-bold_italic : render_run (codes "a") 3 [] ≡ codes "<i><strong>a</strong></i>"
unfolding render_run has_format lexxy_style format_wrap escape_text replace split_once
render_run-bold_italic = refl

lexxy_style-filtered : lexxy_style (codes " color :red;x:y") ≡ some (codes "color: red;")
unfolding lexxy_style split_once str_eq
lexxy_style-filtered = refl
