-- ===== src/HtmlCore/RuleTag.antt =====
-- The opening tag of a declarative rule, which every renderer of such a rule pushes alike.
pub mod Writes
use yrby.Base.{ℕ, Option, none, some, List, [], ◌∷◌, ◌++◌, Str, codes}
use yrby.HtmlCore.Emitter.{Render, pure, ◌>>=◌, ◌>>◌, push_str, push, for_each}
use yrby.HtmlCore.Escape.{escape_text, escape_attr}
use yrby.HtmlCore.Template.{AttrPart, resolve_parts}

abbrev push_value : Str → Option Str → Render (Unit {0})
push_value name none = pure tt
push_value name (some v) = do
  push b' '
  push_str name
  push_str (codes "=\"")
  push_str (escape_attr v)
  push b'"'

-- `lookup` reads an attribute of the node.
unfoldable pub push_attr : (Str → Option Str) → (Str × List AttrPart) → Render (Unit {0})
push_attr lookup (name, parts) = push_value name (resolve_parts parts lookup)

unfoldable pub push_open_tag :
    Str → List (Str × List AttrPart) → (Str → Option Str) → Render (Unit {0})
push_open_tag tag attrs lookup = do
  push b'<'
  push_str tag
  for_each (push_attr lookup) attrs
  push b'>'

abbrev push_escaped : Option Str → Render (Unit {0})
push_escaped none = pure tt
push_escaped (some v) = push_str (escape_text v)

unfoldable pub push_template : Option (List AttrPart) → (Str → Option Str) → Render (Unit {0})
push_template none lookup = pure tt
push_template (some parts) lookup = push_escaped (resolve_parts parts lookup)

unfoldable pub push_close_tag : Str → Render (Unit {0})
push_close_tag tag = do push_str (codes "</"); push_str tag; push b'>'
