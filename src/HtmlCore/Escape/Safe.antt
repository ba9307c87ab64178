-- ===== src/HtmlCore/Escape/Safe.antt =====
-- What escaping guarantees: no character of markup is left, and nothing is lost.
use yrby.Base.{
  ℕ, ◌==◌, if◌then◌else◌, [], ◌∷◌, ◌++◌, Str, codes, ◌≡◌, ◌≢◌, refl, ap, ◌∙◌, All, All-append,
  concat_map, arith, Option, none, some, str_eq,
}
use yrby.HtmlCore.Escape.{escape_text, escape_attr}

-- The character can stand in text.
abbrev pub IsTextChar : ℕ → Type 0
IsTextChar c = (c ≢ b'<') × (c ≢ b'>')

-- The character can stand in a quoted attribute value.
abbrev pub IsValueChar : ℕ → Type 0
IsValueChar c = (c ≢ b'<') × (c ≢ b'>') × (c ≢ b'"')

-- Escaping one character, in one pass.
unfoldable pub entity : ℕ → Str
entity c =
    if c == b'&'
    then codes "&amp;"
    else if c == b'<'
    then codes "&lt;"
    else if c == b'>'
    then codes "&gt;"
    else c ∷ []

unfoldable pub quoted_entity : ℕ → Str
unfolding entity
quoted_entity c = if c == b'"' then codes "&quot;" else entity c

-- The three replacements in turn do what one pass over the characters does.
pub escape_text-entity : (s : Str) → escape_text s ≡ concat_map entity s
unfolding escape_text entity
escape_text-entity [] = refl
escape_text-entity (x ∷ s) = ground (arith, escape_text-entity s)

pub escape_attr-entity : (s : Str) → escape_attr s ≡ concat_map quoted_entity s
unfolding escape_attr quoted_entity
escape_attr-entity [] = refl
escape_attr-entity (x ∷ s) = ground (arith, escape_attr-entity s)

entity-IsTextChar : (c : ℕ) → All IsTextChar (entity c)
unfolding entity
entity-IsTextChar c = ground arith

quoted_entity-IsValueChar : (c : ℕ) → All IsValueChar (quoted_entity c)
unfolding quoted_entity
quoted_entity-IsValueChar c = ground arith

All-concat_map :
    (P : ℕ → Type 0) (f : ℕ → Str) → ((c : ℕ) → All P (f c)) → (s : Str) → All P (concat_map f s)
All-concat_map P f h [] = tt
All-concat_map P f h (c ∷ s) = All-append P (f c) (concat_map f s) (h c) (All-concat_map P f h s)

-- Escaped text holds neither `<` nor `>`.
pub escape_text-IsTextChar : (s : Str) → All IsTextChar (escape_text s)
escape_text-IsTextChar s =
    rw escape_text-entity (All-concat_map IsTextChar entity entity-IsTextChar s)

-- An escaped attribute value holds none of `<`, `>` and `"`.
pub escape_attr-IsValueChar : (s : Str) → All IsValueChar (escape_attr s)
escape_attr-IsValueChar s =
    rw escape_attr-entity (All-concat_map IsValueChar quoted_entity quoted_entity-IsValueChar s)

-- An independent reader of character references: `none` outside one, else the name so far.
abbrev pub named : Str → Str
named n =
    if str_eq n (codes "amp")
    then codes "&"
    else if str_eq n (codes "lt")
    then codes "<"
    else if str_eq n (codes "gt")
    then codes ">"
    else if str_eq n (codes "quot")
    then b'"' ∷ []
    else (codes "&" ++ n) ++ codes ";"

abbrev next : Option Str → ℕ → Option Str
next none c = if c == b'&' then some [] else none
next (some n) c = if c == b';' then none else some (n ++ c ∷ [])

abbrev shown : Option Str → ℕ → Str
shown none c = if c == b'&' then [] else c ∷ []
shown (some n) c = if c == b';' then named n else []

abbrev pending : Option Str → Str
pending none = []
pending (some n) = codes "&" ++ n

pub unescape_from : Option Str → Str → Str
unescape_from st [] = pending st
unescape_from st (c ∷ s) = shown st c ++ unescape_from (next st c) s

unfoldable pub unescape : Str → Str
unfolding unescape_from
unescape s = unescape_from none s

unescape-entity : (c : ℕ) (s : Str) → unescape_from none (entity c ++ s) ≡ c ∷ unescape_from none s
unfolding unescape_from entity str_eq
unescape-entity c s = ground arith

unescape-quoted_entity :
    (c : ℕ) (s : Str) → unescape_from none (quoted_entity c ++ s) ≡ c ∷ unescape_from none s
unfolding unescape_from quoted_entity str_eq
unescape-quoted_entity c s = ground arith

unescape-concat_map :
    (f : ℕ → Str)
    → ((c : ℕ) (s : Str) → unescape_from none (f c ++ s) ≡ c ∷ unescape_from none s)
    → (s : Str) → unescape_from none (concat_map f s) ≡ s
unfolding unescape_from
unescape-concat_map f h [] = refl
unescape-concat_map f h (c ∷ s) = h c (concat_map f s) ∙ ap (λ r. c ∷ r) (unescape-concat_map f h s)

-- A reader of character references reads back the text that was escaped.
unescape-escape_text : (s : Str) → unescape (escape_text s) ≡ s
unfolding unescape
unescape-escape_text s = rw escape_text-entity (unescape-concat_map entity unescape-entity s)

-- A reader of character references reads back the value that was escaped.
pub unescape-escape_attr : (s : Str) → unescape (escape_attr s) ≡ s
unfolding unescape
unescape-escape_attr s =
    rw escape_attr-entity (unescape-concat_map quoted_entity unescape-quoted_entity s)
