-- ===== src/HtmlCore/Escape.antt =====
-- `escape_text` and `escape_attr`, which the two renderer crates declare alike
-- (ext/yrby/crates/prosemirror-html/src/lib.rs, ext/yrby/crates/lexical-html/src/lib.rs).
pub mod Safe
use yrby.Base.{ℕ, ◌==◌, if◌then◌else◌, List, [], ◌∷◌, ◌++◌, Str, codes}

-- `str::replace` of one character by a text.
unfoldable pub replace : ℕ → Str → Str → Str
replace c r [] = []
replace c r (x ∷ s) = let rest = replace c r s in if x == c then r ++ rest else x ∷ rest

unfoldable pub escape_text : Str → Str
unfolding replace
escape_text s =
    replace b'>' (codes "&gt;") (replace b'<' (codes "&lt;") (replace b'&' (codes "&amp;") s))

unfoldable pub escape_attr : Str → Str
unfolding escape_text
escape_attr s = replace b'"' (codes "&quot;") (escape_text s)
