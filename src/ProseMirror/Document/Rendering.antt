-- ===== src/ProseMirror/Document/Rendering.antt =====
-- A document renders without a panic, to segments that show markup.
use yrby.Base.{
  ◌+◌, ◌≡◌, refl, ap, sym, subst, if◌then◌else◌, Bool, true, false, none, some, List, [],
  concat_map, arith,
}
use yrby.Yrs.{Yrs, element, fragment, text, Node}
use yrby.HtmlCore.Segment.{nil}
use yrby.HtmlCore.Segment.Tokens.{Tok, chars, emit}
use yrby.HtmlCore.Emitter.{new, for_each, into_segments}
use yrby.HtmlCore.Emitter.Emits.{Writes, Emits-push_str, Emits-for_each}
use yrby.HtmlCore.Escape.{escape_text}
use yrby.HtmlCore.Template.{Rules}
use yrby.HtmlCore.Markup.{Markup}
use yrby.HtmlCore.Markup.Build.{concat_map-Markup, escaped-Markup}
use yrby.HtmlCore.Markup.Named.{IsNamed}
use yrby.ProseMirror.Runs.Tokens.{run_tokens, Writes-render_text_runs}
use yrby.ProseMirror.Runs.Nesting.{run_tokens-Markup}
use yrby.ProseMirror.Inline.{max_depth}
use yrby.ProseMirror.Block.Plan.{block_tokens, kids_cost}
use yrby.ProseMirror.Block.Walk.{walk-block_tokens}
use yrby.ProseMirror.Block.Rendered.{block_tokens-Markup}
use yrby.HtmlCore.Outcome.{returns, segments_of, IsSound, declined-IsSound}
use yrby.ProseMirror.Document.{
  is_prosemirror_shaped, render_block_tree, render_root, render_segments,
}

module _ (y : Yrs) (rules : Rules) where
  abbrev pub root_tokens : Node y → List Tok
  root_tokens (element e) = block_tokens y rules max_depth e
  root_tokens (text t) = run_tokens y rules t
  root_tokens (fragment f) = chars (escape_text (y.fragment_string f))

  -- The document by recursion over its nodes.
  unfoldable pub document_tokens : y.Fragment → List Tok
  document_tokens f = concat_map root_tokens (y.roots f)

  Writes-render_block_tree :
      (e : y.Element) → Writes (render_block_tree y rules e) (block_tokens y rules max_depth e)
  unfolding render_block_tree
  Writes-render_block_tree e = record {
    at = λ top rest.
        walk-block_tokens y rules max_depth (2 + kids_cost y rules max_depth e) e top rest
          (omega arith);
  }

  Writes-render_root : (node : Node y) → Writes (render_root y rules node) (root_tokens node)
  unfolding render_root
  Writes-render_root (element e) = Writes-render_block_tree e
  Writes-render_root (text t) = Writes-render_text_runs y rules t
  Writes-render_root (fragment f) = Emits-push_str (escape_text (y.fragment_string f))

  shaped_segments :
      (b : Bool) (f : y.Fragment)
      → (if b then segments_of (for_each (render_root y rules) (y.roots f) new) else returns none)
        ≡ returns (if b then some (emit nil (document_tokens f)) else none)
  unfolding document_tokens into_segments
  shaped_segments true f =
      ap (segments_of) (
        (Emits-for_each (render_root y rules) root_tokens (y.roots f) Writes-render_root).at nil [])
  shaped_segments false f = refl

  -- Rendering never panics. A document that is not ProseMirror-shaped is declined; any other
  -- renders, with the stack machine and its frames, to what the recursion over its nodes emits.
  pub render_segments-document_tokens :
      (f : y.Fragment)
      → render_segments y rules f
        ≡ returns (if is_prosemirror_shaped y f then some (emit nil (document_tokens f)) else none)
  unfolding render_segments
  render_segments-document_tokens f = shaped_segments (is_prosemirror_shaped y f) f

  root-Markup : (node : Node y) → IsNamed rules → Markup (root_tokens node)
  root-Markup (element e) named = block_tokens-Markup y rules named max_depth e
  root-Markup (text t) named = run_tokens-Markup y rules named t
  root-Markup (fragment f) named = escaped-Markup (y.fragment_string f)

  pub document_tokens-Markup : (f : y.Fragment) → IsNamed rules → Markup (document_tokens f)
  unfolding document_tokens
  document_tokens-Markup f named =
      concat_map-Markup root_tokens (y.roots f) (λ node. root-Markup node named)

  -- Where the rules' tags and attribute names are names and only HTML's void elements are void, any document at all renders to merged
  -- segments that show well-formed, escaped markup, or is declined.
  pub render_segments-IsSound :
      (f : y.Fragment) → IsNamed rules → IsSound (render_segments y rules f)
  render_segments-IsSound f named = subst IsSound (sym (render_segments-document_tokens f)) (
      declined-IsSound (is_prosemirror_shaped y f) (document_tokens f)
        (document_tokens-Markup f named))
