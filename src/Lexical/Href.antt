-- ===== src/Lexical/Href.antt =====
-- `safe_href`: what a link's URL is rendered as.
use yrby.Base.{
  ◌≡◌, refl, subst, if◌then◌else◌, Bool, true, false, not, Option, none, some, List, [], ◌∷◌, Str,
  codes, is_one_of, ◌⊎◌, inl, inr,
}
use yrby.HtmlCore.Url.{url_scheme}
use yrby.HtmlCore.Url.Browser.{Reads, url_scheme-Reads}

abbrev pub lexical_schemes : List Str
lexical_schemes = codes "http" ∷ codes "https" ∷ codes "mailto" ∷ codes "sms" ∷ codes "tel" ∷ []

abbrev refused : Option Str → Bool
refused none = false
refused (some scheme) = not (is_one_of lexical_schemes scheme)

unfoldable pub safe_href : Str → Str
safe_href url = if refused (url_scheme url) then codes "about:blank" else url

href_cases :
    (b : Bool) (url scheme : Str)
    → refused (url_scheme url) ≡ b
    → url_scheme (if b then codes "about:blank" else url) ≡ some scheme
    → (is_one_of lexical_schemes scheme ≡ true)
      ⊎ ((if b then codes "about:blank" else url) ≡ codes "about:blank")
href_cases true url scheme e h = inr refl
href_cases false url scheme e h =
    inl (allowed (is_one_of lexical_schemes scheme) (subst (λ o. refused o ≡ false) h e))
  where
    allowed : (b : Bool) → not b ≡ false → b ≡ true
    allowed true k = refl
    allowed false k = cc

-- Whatever scheme a browser reads, by the URL standard, from a rendered URL is an allowed one, or the
-- URL is `about:blank`.
pub safe_href-is_one_of :
    (url scheme : Str)
    → Reads (safe_href url) scheme
    → (is_one_of lexical_schemes scheme ≡ true) ⊎ (safe_href url ≡ codes "about:blank")
unfolding safe_href
safe_href-is_one_of url scheme h =
    href_cases (refused (url_scheme url)) url scheme refl
      (url_scheme-Reads (safe_href url) scheme h)
