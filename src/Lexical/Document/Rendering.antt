-- ===== src/Lexical/Document/Rendering.antt =====
-- A document renders without a panic, to segments that show markup.
use yrby.Base.{
  ◌+◌, ◌≡◌, refl, ap, sym, subst, if◌then◌else◌, Bool, true, false, none, some, List, [],
  concat_map, arith,
}
use yrby.Yrs.{Yrs, element, fragment, text, Node}
use yrby.HtmlCore.Segment.{nil}
use yrby.HtmlCore.Segment.Tokens.{Tok, chars, emit}
use yrby.HtmlCore.Emitter.{new, for_each, into_segments}
use yrby.HtmlCore.Emitter.Emits.{Writes, Emits-push_str, Emits-for_each}
use yrby.HtmlCore.Escape.{escape_text}
use yrby.HtmlCore.Template.{Rules}
use yrby.HtmlCore.Markup.{Markup}
use yrby.HtmlCore.Markup.Build.{concat_map-Markup, escaped-Markup}
use yrby.HtmlCore.Markup.Named.{IsNamed}
use yrby.HtmlCore.Work.Walks.{run_work-tree_tokens}
use yrby.HtmlCore.Outcome.{returns, segments_of, IsSound, declined-IsSound}
use yrby.Lexical.Nodes.{is_lexical_shaped}
use yrby.Lexical.Inline.Tokens.{decorator_tokens}
use yrby.Lexical.Inline.Written.{Writes-render_decorator}
use yrby.Lexical.Inline.WellFormed.{decorator_tokens-Markup}
use yrby.Lexical.Block.{max_block_depth, open_block, walk}
use yrby.Lexical.Block.Plan.{plan, pushed_children, block_tokens, kids_cost}
use yrby.Lexical.Block.Opens.{open_block-Opens}
use yrby.Lexical.Block.WellFormed.{block_tokens-Markup}
use yrby.Lexical.Document.{render_block_tree, render_root, render_segments}

module _ (y : Yrs) (rules : Rules) where
  abbrev pub root_tokens : Node y → List Tok
  root_tokens (text t) = block_tokens y rules max_block_depth t
  root_tokens (element e) = decorator_tokens y rules e
  root_tokens (fragment f) = chars (escape_text (y.fragment_string f))

  -- The document by recursion over its nodes.
  unfoldable pub document_tokens : y.Fragment → List Tok
  document_tokens f = concat_map root_tokens (y.roots f)

  Writes-render_block_tree :
      (t : y.Text) → Writes (render_block_tree y rules t) (block_tokens y rules max_block_depth t)
  unfolding render_block_tree walk
  Writes-render_block_tree t = record {
    at = λ top rest.
        run_work-tree_tokens (pushed_children y rules) (open_block y rules) (plan y rules)
          (open_block-Opens y rules) max_block_depth (2 + kids_cost y rules max_block_depth t) t top
          rest (omega arith);
  }

  Writes-render_root : (node : Node y) → Writes (render_root y rules node) (root_tokens node)
  unfolding render_root
  Writes-render_root (text t) = Writes-render_block_tree t
  Writes-render_root (element e) = Writes-render_decorator y rules e
  Writes-render_root (fragment f) = Emits-push_str (escape_text (y.fragment_string f))

  shaped_segments :
      (b : Bool) (f : y.Fragment)
      → (if b then segments_of (for_each (render_root y rules) (y.roots f) new) else returns none)
        ≡ returns (if b then some (emit nil (document_tokens f)) else none)
  unfolding document_tokens into_segments
  shaped_segments true f =
      ap segments_of (
        (Emits-for_each (render_root y rules) root_tokens (y.roots f) Writes-render_root).at nil [])
  shaped_segments false f = refl

  -- Rendering never panics. A document that is not Lexical-shaped is declined; any other renders,
  -- with the stack machine and its frames, to what the recursion over its nodes emits.
  pub lexical-document_tokens :
      (f : y.Fragment)
      → render_segments y rules f
        ≡ returns (if is_lexical_shaped y f then some (emit nil (document_tokens f)) else none)
  unfolding render_segments
  lexical-document_tokens f = shaped_segments (is_lexical_shaped y f) f

  pub document_tokens-Markup : (f : y.Fragment) → IsNamed rules → Markup (document_tokens f)
  unfolding document_tokens
  document_tokens-Markup f named = concat_map-Markup root_tokens (y.roots f) at_root
    where
      at_root : (node : Node y) → Markup (root_tokens node)
      at_root (text t) = block_tokens-Markup y rules named max_block_depth t
      at_root (element e) = decorator_tokens-Markup y rules named e
      at_root (fragment f) = escaped-Markup (y.fragment_string f)

  -- Where the rules' tags and attribute names are names and only HTML's void elements are void, any
  -- document at all renders to merged segments that show well-formed, escaped markup, or is declined.
  pub lexical-IsSound : (f : y.Fragment) → IsNamed rules → IsSound (render_segments y rules f)
  lexical-IsSound f named = subst IsSound (sym (lexical-document_tokens f)) (
      declined-IsSound (is_lexical_shaped y f) (document_tokens f) (document_tokens-Markup f named))
