-- ===== src/HtmlCore/Markup.antt =====
-- Well-formed markup: an independent grammar of what a renderer may emit, in which every element
-- is closed, every attribute value is quoted, and every text is escaped.
pub mod Build
pub mod Named
use yrby.Base.{ℕ, ◌≢◌, ◌≤◌, ◌<◌, List, [], ◌∷◌, ◌++◌, Str, codes, All, ◌≡◌, true, is_one_of}
use yrby.HtmlCore.Segment.{Segments, nil}
use yrby.HtmlCore.Segment.Tokens.{Tok, ch, hole, chars, emit}
use yrby.HtmlCore.Escape.Safe.{IsTextChar, IsValueChar}

-- A character of a tag's or an attribute's name: printable, and none of `"`, `/`, `<`, `=` and `>`.
abbrev pub IsNameChar : ℕ → Type 0
IsNameChar c = (33 ≤ c) × (c ≢ b'"') × (c ≢ b'/') × (c ≢ b'<') × (c ≢ b'=') × (c ≢ b'>')

-- A non-empty name.
abbrev pub IsName : Str → Type 0
IsName s = (s ≢ []) × All IsNameChar s

-- What stands in a tag behind its name: ` name="value"`, any number of times.
pub data Attributes : Str → Type 0 where
  no_attributes : Attributes []
  attribute :
      (name value rest : Str)
      → IsName name
      → All IsValueChar value
      → Attributes rest
      → Attributes (codes " " ++ (name ++ (codes "=\"" ++ (value ++ (codes "\"" ++ rest)))))

-- The elements that HTML has without content and without a closing tag.
abbrev pub void_names : List Str
void_names =
    codes "area"
    ∷ codes "base"
    ∷ codes "br"
    ∷ codes "col"
    ∷ codes "embed"
    ∷ codes "hr"
    ∷ codes "img"
    ∷ codes "input"
    ∷ codes "link"
    ∷ codes "meta"
    ∷ codes "source"
    ∷ codes "track"
    ∷ codes "wbr"
    ∷ []

abbrev pub IsVoid : Str → Type 0
IsVoid name = is_one_of void_names name ≡ true

abbrev pub open_tag : Str → Str → Str
open_tag name attrs = codes "<" ++ (name ++ (attrs ++ codes ">"))

abbrev pub close_tag : Str → Str
close_tag name = codes "</" ++ (name ++ codes ">")

pub data Markup : List Tok → Type 0 where
  nothing : Markup []
  -- an escaped character
  character : (c : ℕ) → IsTextChar c → Markup (ch c ∷ [])
  -- a callback node, whose content is markup
  callback_node :
      (ty attrs : Str) (kinds : List Str) (ts : List Tok)
      → Markup ts
      → Markup (hole ty attrs kinds (emit nil ts) ∷ [])
  -- an element that is closed
  element :
      (name attrs : Str) (body : List Tok)
      → IsName name
      → Attributes attrs
      → Markup body
      → Markup (chars (open_tag name attrs) ++ (body ++ chars (close_tag name)))
  -- an element that HTML has without content, such as `<br>`
  void_element :
      (name attrs : Str)
      → IsName name
      → IsVoid name
      → Attributes attrs
      → Markup (chars (open_tag name attrs))
  sequence : (ts us : List Tok) → Markup ts → Markup us → Markup (ts ++ us)
