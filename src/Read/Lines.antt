-- ===== src/Read/Lines.antt =====
-- `xml_blocks_text`: the text of a document, one line for each block.
pub mod Kept
pub mod Whole
use yrby.Base.{
  ℕ, zero, suc, if◌then◌else◌, Bool, true, false, Option, none, some, List, [], ◌∷◌, ◌++◌, Str,
  codes, str_eq, is_one_of,
}
use yrby.Yrs.{
  Yrs, Stored, Any, any, y_map, y_xml_element, y_xml_text, other, element, fragment, text, Output,
  Node,
}

abbrev pub inline_types : List Str
inline_types =
    codes "text"
    ∷ codes "link"
    ∷ codes "autolink"
    ∷ codes "linebreak"
    ∷ codes "tab"
    ∷ codes "hashtag"
    ∷ codes "mark"
    ∷ codes "overflow"
    ∷ []

unfoldable pub is_inline_lexical_type : Str → Bool
is_inline_lexical_type ty = is_one_of inline_types ty

-- What a node without characters of its own stands for, by its type.
unfoldable pub break_text : Str → Str
break_text ty =
    if str_eq ty (codes "linebreak")
    then codes "\n"
    else if str_eq ty (codes "tab")
    then codes "\t"
    else []

-- `if !line.is_empty() { out.push(line) }`
abbrev pub push_line : List Str → Str → List Str
push_line out [] = out
push_line out (c ∷ line) = out ++ (c ∷ line) ∷ []

-- `out.join("\n")`
unfoldable pub join_lines : List Str → Str
join_lines [] = []
join_lines (line ∷ []) = line
join_lines (line ∷ (next ∷ lines)) = line ++ (codes "\n" ++ join_lines (next ∷ lines))

abbrev pub given : {A B : Type 0} → Option A → (A → Option B) → Option B
given none f = none
given (some a) f = f a

module _ (y : Yrs) where
  abbrev pub string_at : Option (Output y) → Option Str
  string_at (some (any (Any.string s))) = some s
  string_at _ = none

  abbrev pub or_none : Option Str → Str
  or_none none = []
  or_none (some s) = s

  unfoldable pub lexical_type : y.Text → Str
  lexical_type t = or_none (string_at (y.text_attribute t (codes "__type")))

  unfoldable pub lexical_map_type : y.YMap → Str
  lexical_map_type m = or_none (string_at (y.map_get m (codes "__type")))

  abbrev unless_blank : Option Str → Option Str
  unless_blank none = none
  unless_blank (some []) = none
  unless_blank (some (c ∷ s)) = some (c ∷ s)

  -- the closure `attr`
  abbrev attr : y.Element → Str → Option Str
  attr e name = unless_blank (string_at (y.attribute e name))

  abbrev or_else : Option Str → Option Str → Option Str
  or_else none b = b
  or_else (some a) b = some a

  abbrev decorator_of : y.Element → Option Str → Option Str
  decorator_of e none = none
  decorator_of e (some ty) =
      if str_eq ty (codes "custom_action_text_attachment")
      then attr e (codes "plainText")
      else if str_eq ty (codes "action_text_attachment")
      then or_else (or_else (attr e (codes "caption")) (attr e (codes "altText")))
          (attr e (codes "fileName"))
      else none

  unfoldable pub lexical_decorator_text : y.Element → Option Str
  lexical_decorator_text e = decorator_of e (string_at (y.attribute e (codes "__type")))

  -- The loop over an inline element's content; `deeper` is the call for a nested element.
  unfoldable pub inline_pieces :
      (y.Text → Str → Option Str)
      → List (Output y × Option (List (Str × Stored y)))
      → Str
      → Option Str
  inline_pieces deeper [] buf = some buf
  inline_pieces deeper ((any (Any.string s), _) ∷ diff) buf = inline_pieces deeper diff (buf ++ s)
  inline_pieces deeper ((y_xml_text child, _) ∷ diff) buf =
      given (deeper child buf) (λ longer. inline_pieces deeper diff longer)
  inline_pieces deeper ((y_map m, _) ∷ diff) buf =
      inline_pieces deeper diff (buf ++ break_text (lexical_map_type m))
  inline_pieces deeper ((_, _) ∷ diff) buf = inline_pieces deeper diff buf

  -- `levels` bounds the nesting; `none` where it is deeper.
  unfoldable pub inline_lexical_text : ℕ → y.Text → Str → Option Str
  inline_lexical_text zero t buf = none
  inline_lexical_text (suc levels) t buf = inline_pieces (inline_lexical_text levels) (y.diff t) buf

  -- The loop over a block's content, from the line and the lines so far.
  unfoldable pub block_pieces :
      (y.Text → Str → Option Str)
      → (y.Text → List Str → Option (List Str))
      → List (Output y × Option (List (Str × Stored y)))
      → Str
      → List Str
      → Option (List Str)
  block_pieces inline deeper [] line out = some (push_line out line)
  block_pieces inline deeper ((any (Any.string s), _) ∷ diff) line out =
      block_pieces inline deeper diff (line ++ s) out
  block_pieces inline deeper ((y_map m, _) ∷ diff) line out =
      block_pieces inline deeper diff (line ++ break_text (lexical_map_type m)) out
  block_pieces inline deeper ((y_xml_text child, _) ∷ diff) line out =
      let ty = lexical_type child in
      if is_one_of (codes "linebreak" ∷ codes "tab" ∷ []) ty
      then block_pieces inline deeper diff (line ++ break_text ty) out
      else if is_inline_lexical_type ty
      then given (inline child line) (λ longer. block_pieces inline deeper diff longer out)
      else given (deeper child (push_line out line))
          (λ lines. block_pieces inline deeper diff [] lines)
  block_pieces inline deeper ((y_xml_element e, _) ∷ diff) line out =
      block_pieces inline deeper diff (line ++ or_none (lexical_decorator_text e)) out
  block_pieces inline deeper ((_, _) ∷ diff) line out = block_pieces inline deeper diff line out

  unfoldable pub walk_lexical_block : ℕ → y.Text → List Str → Option (List Str)
  walk_lexical_block zero t out = none
  walk_lexical_block (suc levels) t out =
      block_pieces (inline_lexical_text levels) (walk_lexical_block levels) (y.diff t) [] out

  abbrev is_missing : Option (Output y) → Bool
  is_missing none = true
  is_missing (some o) = false

  abbrev push_text : List Str → Option Str → List Str
  push_text out none = out
  push_text out (some s) = out ++ s ∷ []

  unfoldable pub root_lines : ℕ → Node y → List Str → Option (List Str)
  root_lines levels (text t) out = walk_lexical_block levels t out
  root_lines levels (element e) out = some (
      if is_missing (y.attribute e (codes "__type"))
      then out ++ y.element_string e ∷ []
      else push_text out (lexical_decorator_text e))
  root_lines levels (fragment f) out = some (out ++ y.fragment_string f ∷ [])

  unfoldable pub all_lines : ℕ → List (Node y) → List Str → Option (List Str)
  all_lines levels [] out = some out
  all_lines levels (node ∷ nodes) out =
      given (root_lines levels node out) (λ lines. all_lines levels nodes lines)

  unfoldable pub xml_blocks_text : ℕ → y.Fragment → Option Str
  xml_blocks_text levels f = given (all_lines levels (y.roots f) []) (λ out. some (join_lines out))
