-- ===== src/ProseMirror/Arms.antt =====
-- The arms of the `match` in `open_block`, and what they write before their children.
use yrby.Base.{
  ℕ, ◌+◌, ◌≤◌, arith, ◌==◌, ltb, if◌then◌else◌, Option, none, some, List, [], ◌∷◌, Str, codes, get,
}
use yrby.Base.Int.{ℤ, pos, negsuc}
use yrby.Base.Decimal.{show_ℤ}
use yrby.HtmlCore.Emitter.{Render, pure, ◌>>◌, push_str, push}
use yrby.HtmlCore.Escape.{escape_attr}

-- The arms of the `match` in `open_block`.
pub data Arm : Type 0 where
  paragraph heading code_block blockquote bullet_list ordered_list list_item : Arm
  table table_row table_header table_cell horizontal_rule image hard_break unknown : Arm

abbrev pub arms : List (Str × Arm)
arms =
    (codes "paragraph", paragraph)
    ∷ (codes "heading", heading)
    ∷ (codes "codeBlock", code_block)
    ∷ (codes "code_block", code_block)
    ∷ (codes "blockquote", blockquote)
    ∷ (codes "bulletList", bullet_list)
    ∷ (codes "bullet_list", bullet_list)
    ∷ (codes "orderedList", ordered_list)
    ∷ (codes "ordered_list", ordered_list)
    ∷ (codes "listItem", list_item)
    ∷ (codes "list_item", list_item)
    ∷ (codes "table", table)
    ∷ (codes "tableRow", table_row)
    ∷ (codes "table_row", table_row)
    ∷ (codes "tableHeader", table_header)
    ∷ (codes "table_header", table_header)
    ∷ (codes "tableCell", table_cell)
    ∷ (codes "table_cell", table_cell)
    ∷ (codes "horizontalRule", horizontal_rule)
    ∷ (codes "horizontal_rule", horizontal_rule)
    ∷ (codes "image", image)
    ∷ (codes "hardBreak", hard_break)
    ∷ (codes "hard_break", hard_break)
    ∷ []

abbrev pub or_unknown : Option Arm → Arm
or_unknown none = unknown
or_unknown (some a) = a

unfoldable pub arm : Str → Arm
arm tag = or_unknown (get arms tag)

-- `unwrap_or(1).clamp(1, 6)`
abbrev pub level_of : Option ℤ → ℕ
level_of none = 1
level_of (some (negsuc n)) = 1
level_of (some (pos n)) = if ltb n 1 then 1 else if ltb 6 n then 6 else n

-- The digit of the level: `['1', '2', '3', '4', '5', '6'][(level - 1) as usize]`.
unfoldable pub heading_digit : Option ℤ → ℕ
heading_digit level = 48 + level_of level

abbrev pub or_one : Option ℤ → ℤ
or_one none = pos 1
or_one (some n) = n

abbrev pub push_ol : Option ℤ → Render (Unit {0})
push_ol none = push_str (codes "<ol>")
push_ol (some (pos n)) =
    if n == 1
    then push_str (codes "<ol>")
    else (do push_str (codes "<ol start=\""); push_str (show_ℤ (pos n)); push_str (codes "\">"))
push_ol (some (negsuc n)) = do
  push_str (codes "<ol start=\"")
  push_str (show_ℤ (negsuc n))
  push_str (codes "\">")

abbrev pub push_language : Option Str → Render (Unit {0})
push_language none = pure tt
push_language (some []) = pure tt
push_language (some (c ∷ lang)) = do
  push_str (codes " class=\"language-")
  push_str (escape_attr (c ∷ lang))
  push b'"'

-- A heading's level lies between 1 and 6.
pub heading_digit_bounds :
    (level : Option ℤ) → (49 ≤ heading_digit level) × (heading_digit level ≤ 54)
unfolding heading_digit
heading_digit_bounds none = ground arith
heading_digit_bounds (some (negsuc n)) = ground arith
heading_digit_bounds (some (pos n)) = ground arith
