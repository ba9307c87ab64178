-- ===== src/Lexical/Document.antt =====
-- `render_segments`, `render_block_tree` and `render`: whole documents.
pub mod Rendering
pub mod Plain
use yrby.Base.{ℕ, ◌+◌, if◌then◌else◌, Bool, true, false, Option, none, some, List, [], ◌∷◌, Str}
use yrby.Yrs.{Yrs, XmlOut, element, fragment, text, Node}
use yrby.HtmlCore.Segment.{Segments}
use yrby.HtmlCore.Emitter.{Render, new, push_str, for_each}
use yrby.HtmlCore.Escape.{escape_text}
use yrby.HtmlCore.Template.{Rules, empty_rules}
use yrby.HtmlCore.Work.{open_node}
use yrby.HtmlCore.Outcome.{Outcome, returns, segments_of, html_of}
use yrby.Lexical.Nodes.{is_lexical_shaped}
use yrby.Lexical.Inline.{render_decorator}
use yrby.Lexical.Block.{max_block_depth, walk}
use yrby.Lexical.Block.Plan.{kids_cost}

module _ (y : Yrs) (rules : Rules) where
  -- The fuel is two rounds for every node that is entered, which is enough.
  unfoldable pub render_block_tree : y.Text → Render (Unit {0})
  render_block_tree root =
      walk y rules (2 + kids_cost y rules max_block_depth root)
        (open_node root max_block_depth ∷ [])

  unfoldable pub render_root : Node y → Render (Unit {0})
  render_root (text t) = render_block_tree t
  render_root (element e) = render_decorator y rules e
  render_root (fragment f) = push_str (escape_text (y.fragment_string f))

  -- `None` for a document of another editor.
  unfoldable pub render_segments : y.Fragment → Outcome (Option Segments)
  render_segments f =
      if is_lexical_shaped y f
      then segments_of (for_each render_root (y.roots f) new)
      else returns none

module _ (y : Yrs) where
  unfoldable pub render : y.Fragment → Outcome (Option Str)
  render f = html_of (render_segments y empty_rules f)
