-- ===== src/ProseMirror/Marks/LinkSafe.antt =====
-- A rendered link names no scheme but the allowed ones.
use yrby.Base.{
  ◌≡◌, refl, subst, Bool, true, false, if◌then◌else◌, not, none, some, Str, [], codes, str_eq,
  is_one_of, arith,
}
use yrby.HtmlCore.Url.{url_scheme}
use yrby.HtmlCore.Url.Browser.{Reads, url_scheme-Reads}
use yrby.ProseMirror.Marks.{link_schemes, is_unsafe, link_value}

no_scheme : url_scheme [] ≡ none
unfolding url_scheme
no_scheme = refl

allowed_cases :
    (b : Bool) (v scheme : Str)
    → is_unsafe (url_scheme v) ≡ b
    → url_scheme (if b then [] else v) ≡ some scheme
    → is_one_of link_schemes scheme ≡ true
allowed_cases true v scheme e h = ground (arith, no_scheme)
allowed_cases false v scheme e h =
    safe_scheme (is_one_of link_schemes scheme) (subst (λ o. is_unsafe o ≡ false) h e)
  where
    safe_scheme : (b : Bool) → not b ≡ false → b ≡ true
    safe_scheme true e = refl
    safe_scheme false e = cc

link_value-scheme :
    (v scheme : Str)
    → url_scheme (link_value (codes "href") v) ≡ some scheme
    → is_one_of link_schemes scheme ≡ true
unfolding link_value str_eq
link_value-scheme v scheme h = allowed_cases (is_unsafe (url_scheme v)) v scheme refl h

-- Whatever scheme a browser reads, by the URL standard, from the `href` that is rendered for a link,
-- is one of the allowed schemes.
pub link_value-is_one_of :
    (v scheme : Str)
    → Reads (link_value (codes "href") v) scheme
    → is_one_of link_schemes scheme ≡ true
link_value-is_one_of v scheme h =
    link_value-scheme v scheme (url_scheme-Reads (link_value (codes "href") v) scheme h)
