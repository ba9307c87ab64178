-- ===== src/Lexical/Run/WellFormed.antt =====
-- What a run renders to is markup.
use yrby.Base.{
  ℕ, ◌≡◌, subst, if◌then◌else◌, Bool, true, false, ◌&&◌, Option, none, some, [], ◌++◌, append_assoc,
  Str, codes, arith,
}
use yrby.HtmlCore.Segment.Tokens.{chars, chars-append}
use yrby.HtmlCore.Escape.{escape_attr}
use yrby.HtmlCore.Markup.{IsName, Markup, no_attributes, open_tag, close_tag, element}
use yrby.HtmlCore.Markup.Build.{attr_text, attr_text-Attributes, escaped-Markup}
use yrby.HtmlCore.Markup.Named.{Found}
use yrby.Lexical.Run.{
  has_format, fmt_bold, fmt_italic, fmt_strikethrough, fmt_underline, format_wrap, outer_tag,
  inner_style, wrap_inner, wrap_outer, wrap_if, lexxy_style, render_run,
}

format_wrap-Markup :
    (inner tag : Str) (style : Option Str)
    → IsName tag
    → Markup (chars inner)
    → Markup (chars (format_wrap inner tag style))
unfolding format_wrap
format_wrap-Markup inner tag none hn h =
    subst Markup (pieces tag inner) (element tag [] (chars inner) hn no_attributes h)
  where
    pieces :
        (t s : Str)
        → chars (open_tag t []) ++ (chars s ++ chars (close_tag t))
          ≡ chars (codes "<" ++ (t ++ (codes ">" ++ (s ++ (codes "</" ++ (t ++ codes ">"))))))
    pieces t s = simp (chars-append, append_assoc)
format_wrap-Markup inner tag (some css) hn h = subst Markup (pieces tag (escape_attr css) inner) (
    element tag (attr_text (codes "style") css) (chars inner) hn
      (attr_text-Attributes (codes "style") css (ground arith)) h)
  where
    pieces :
        (t v s : Str)
        → chars (open_tag t (codes " " ++ (codes "style" ++ (codes "=\"" ++ (v ++ codes "\"")))))
            ++ (chars s ++ chars (close_tag t))
          ≡ chars (
              codes "<"
              ++ (t
                  ++ (codes " style=\""
                      ++ (v ++ (codes "\">" ++ (s ++ (codes "</" ++ (t ++ codes ">"))))))))
    pieces t v s = simp (chars-append, append_assoc)

if_chars :
    (b : Bool) (s t : Str)
    → Markup (chars s)
    → Markup (chars t)
    → Markup (chars (if b then s else t))
if_chars true s t p q = p
if_chars false s t p q = q

wrap_if-Markup :
    (b : Bool) (tag html : Str)
    → IsName tag
    → Markup (chars html)
    → Markup (chars (wrap_if b tag html))
wrap_if-Markup b tag html hn h = if_chars b _ html (format_wrap-Markup html tag none hn h) h

wrap_outer-Markup :
    (outer css : Option Str) (html : Str)
    → Found IsName outer
    → Markup (chars html)
    → Markup (chars (wrap_outer outer css html))
wrap_outer-Markup none css html hn h = h
wrap_outer-Markup (some tag) css html hn h = format_wrap-Markup html tag css hn h

wrap_inner-Markup :
    (format : ℕ) (style : Option Str) (html : Str)
    → Markup (chars html)
    → Markup (chars (wrap_inner format style html))
wrap_inner-Markup format style html h =
    if_chars (has_format format fmt_bold) _ _
      (format_wrap-Markup html (codes "strong") style (ground arith) h)
      (if_chars (has_format format fmt_italic) _ html
        (format_wrap-Markup html (codes "em") style (ground arith) h) h)

outer_tag-IsName : (format : ℕ) → Found IsName (outer_tag format)
unfolding outer_tag
outer_tag-IsName format = ground arith

-- Whatever its text, its format bits and its style, a run renders to well-formed, escaped markup.
pub render_run-Markup :
    (content : Str) (format : ℕ) (style : Str) → Markup (chars (render_run content format style))
unfolding render_run
render_run-Markup content format style =
    wrap_if-Markup (has_format format fmt_underline) (codes "u") _ (ground arith) (
      wrap_if-Markup (has_format format fmt_strikethrough) (codes "s") _ (ground arith) (
        wrap_if-Markup (has_format format fmt_italic && has_format format fmt_bold) (codes "i") _
          (ground arith)
          (wrap_outer-Markup (outer_tag format) (lexxy_style style) _ (outer_tag-IsName format) (
            wrap_inner-Markup format (inner_style (outer_tag format) (lexxy_style style)) _
              (escaped-Markup content)))))
