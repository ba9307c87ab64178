-- ===== src/ProseMirror/Document.antt =====
-- `render_segments`, `render` and `is_builtin`: whole documents.
pub mod Rendering
pub mod Builtin
pub mod Plain
use yrby.Base.{
  ℕ, ◌+◌, if◌then◌else◌, Bool, true, false, Option, none, some, List, [], ◌∷◌, Str, codes,
  is_one_of,
}
use yrby.Yrs.{Yrs, Out, XmlOut, element, fragment, text, Output, Node}
use yrby.HtmlCore.Segment.{Segments}
use yrby.HtmlCore.Emitter.{Render, new, push_str, for_each}
use yrby.HtmlCore.Escape.{escape_text}
use yrby.HtmlCore.Template.{Rules, empty_rules}
use yrby.HtmlCore.Outcome.{Outcome, panics, returns, segments_of, html_of}
use yrby.ProseMirror.Runs.{render_text_runs}
use yrby.ProseMirror.Inline.{max_depth}
use yrby.HtmlCore.Work.{open_node}
use yrby.ProseMirror.Block.{walk}
use yrby.ProseMirror.Block.Plan.{kids_cost}

abbrev pub builtin_types : List Str
builtin_types =
    codes "paragraph"
    ∷ codes "heading"
    ∷ codes "codeBlock"
    ∷ codes "code_block"
    ∷ codes "blockquote"
    ∷ codes "bulletList"
    ∷ codes "bullet_list"
    ∷ codes "orderedList"
    ∷ codes "ordered_list"
    ∷ codes "listItem"
    ∷ codes "list_item"
    ∷ codes "table"
    ∷ codes "tableRow"
    ∷ codes "table_row"
    ∷ codes "tableHeader"
    ∷ codes "table_header"
    ∷ codes "tableCell"
    ∷ codes "table_cell"
    ∷ codes "horizontalRule"
    ∷ codes "horizontal_rule"
    ∷ codes "image"
    ∷ codes "hardBreak"
    ∷ codes "hard_break"
    ∷ []

unfoldable pub is_builtin : Str → Bool
is_builtin ty = is_one_of builtin_types ty

abbrev is_none : {A : Type 0} → Option A → Bool
is_none none = true
is_none (some a) = false

module _ (y : Yrs) where
  first_is_block : List (Node y) → Bool
  first_is_block [] = true
  first_is_block (element e ∷ nodes) = is_none (y.attribute e (codes "__type"))
  first_is_block (_ ∷ nodes) = false

  unfoldable pub is_prosemirror_shaped : y.Fragment → Bool
  unfolding first_is_block
  is_prosemirror_shaped f = first_is_block (y.roots f)

module _ (y : Yrs) (rules : Rules) where
  -- The fuel is two rounds for every node that is entered, which is enough.
  unfoldable pub render_block_tree : y.Element → Render (Unit {0})
  render_block_tree root =
      walk y rules (2 + kids_cost y rules max_depth root) (open_node root max_depth ∷ [])

  unfoldable pub render_root : Node y → Render (Unit {0})
  render_root (element e) = render_block_tree e
  render_root (text t) = render_text_runs y rules t
  render_root (fragment f) = push_str (escape_text (y.fragment_string f))

  -- `None` for a document of another editor.
  unfoldable pub render_segments : y.Fragment → Outcome (Option Segments)
  render_segments f =
      if is_prosemirror_shaped y f
      then segments_of (for_each render_root (y.roots f) new)
      else returns none

module _ (y : Yrs) where
  unfoldable pub render : y.Fragment → Outcome (Option Str)
  render f = html_of (render_segments y empty_rules f)
