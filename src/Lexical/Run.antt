-- ===== src/Lexical/Run.antt =====
-- `render_run`, `format_wrap` and `lexxy_style`: a text run with its format bits.
pub mod WellFormed
use yrby.Base.{
  ℕ, ◌/◌, ◌%◌, ◌==◌, if◌then◌else◌, Bool, true, false, not, ◌&&◌, ◌||◌, Option, none, some, List,
  [], ◌∷◌, ◌++◌, reverse, Str, codes, str_eq,
}
use yrby.HtmlCore.Escape.{escape_text, escape_attr}
use yrby.HtmlCore.Url.{is_whitespace, split_once}

-- The format bits, `1 << 0` to `1 << 7`.
abbrev pub fmt_bold : ℕ
fmt_bold = 1

abbrev pub fmt_italic : ℕ
fmt_italic = 2

abbrev pub fmt_strikethrough : ℕ
fmt_strikethrough = 4

abbrev pub fmt_underline : ℕ
fmt_underline = 8

abbrev pub fmt_code : ℕ
fmt_code = 16

abbrev pub fmt_subscript : ℕ
fmt_subscript = 32

abbrev pub fmt_superscript : ℕ
fmt_superscript = 64

abbrev pub fmt_highlight : ℕ
fmt_highlight = 128

-- `format & flag != 0`, for a flag of one bit.
unfoldable pub has_format : ℕ → ℕ → Bool
has_format format flag = (format / flag) % 2 == 1

-- `str::split` at a character, with the part that is read so far.
split_from : ℕ → Str → List Str
split_from c [] = [] ∷ []
split_from c (x ∷ s) =
    let parts = split_from c s in
    if x == c then [] ∷ parts else elim parts [ [] ↦ (x ∷ []) ∷ [] | p ∷ ps ↦ (x ∷ p) ∷ ps ]

trim_start : Str → Str
unfolding is_whitespace
trim_start [] = []
trim_start (c ∷ s) = let rest = trim_start s in if is_whitespace c then rest else c ∷ s

-- `str::trim`
abbrev trim : Str → Str
trim s = reverse (trim_start (reverse (trim_start s)))

is_empty : Str → Bool
is_empty [] = true
is_empty (c ∷ s) = false

abbrev kept : Str → Str → Str
kept prop value =
    if (str_eq prop (codes "color") || str_eq prop (codes "background-color"))
      && not (is_empty value)
    then prop ++ (codes ": " ++ (value ++ codes ";"))
    else []

abbrev declaration : Option (Str × Str) → Str
declaration none = []
declaration (some (prop, value)) = kept (trim prop) (trim value)

-- The loop over the declarations, from what `css` holds.
style_loop : Str → List Str → Str
style_loop css [] = css
style_loop css (decl ∷ decls) = style_loop (css ++ declaration (split_once b':' decl)) decls

abbrev unless_empty : Str → Option Str
unless_empty [] = none
unless_empty (c ∷ s) = some (c ∷ s)

unfoldable pub lexxy_style : Str → Option Str
unfolding split_from trim_start is_empty style_loop
lexxy_style style = unless_empty (style_loop [] (split_from b';' style))

unfoldable pub format_wrap : Str → Str → Option Str → Str
format_wrap inner tag (some css) =
    codes "<"
    ++ (tag
        ++ (codes " style=\""
            ++ (escape_attr css ++ (codes "\">" ++ (inner ++ (codes "</" ++ (tag ++ codes ">")))))))
format_wrap inner tag none =
    codes "<" ++ (tag ++ (codes ">" ++ (inner ++ (codes "</" ++ (tag ++ codes ">")))))

outer_tag : ℕ → Option Str
outer_tag format =
    if has_format format fmt_code
    then some (codes "code")
    else if has_format format fmt_highlight
    then some (codes "mark")
    else if has_format format fmt_subscript
    then some (codes "sub")
    else if has_format format fmt_superscript
    then some (codes "sup")
    else none

abbrev inner_style : Option Str → Option Str → Option Str
inner_style none css = css
inner_style (some tag) css = none

abbrev wrap_inner : ℕ → Option Str → Str → Str
wrap_inner format style html =
    if has_format format fmt_bold
    then format_wrap html (codes "strong") style
    else if has_format format fmt_italic
    then format_wrap html (codes "em") style
    else html

abbrev wrap_outer : Option Str → Option Str → Str → Str
wrap_outer none css html = html
wrap_outer (some tag) css html = format_wrap html tag css

abbrev wrap_if : Bool → Str → Str → Str
wrap_if b tag html = if b then format_wrap html tag none else html

unfoldable pub render_run : Str → ℕ → Str → Str
unfolding outer_tag
render_run content format style =
    let css = lexxy_style style in
    let outer = outer_tag format in
    wrap_if (has_format format fmt_underline) (codes "u") (
      wrap_if (has_format format fmt_strikethrough) (codes "s") (
        wrap_if (has_format format fmt_italic && has_format format fmt_bold) (codes "i")
          (wrap_outer outer css (wrap_inner format (inner_style outer css) (escape_text content)))))
