-- ===== src/HtmlCore/Flatten.antt =====
-- `flatten`: finished markup as one string, or the segments where a callback node is left.
pub mod Laws
use yrby.Base.{Bool, true, false, if◌then◌else◌, Option, none, some, List, [], ◌∷◌, ◌++◌, Str}
use yrby.HtmlCore.Segment.{Segment, html, deferred, Segments, nil, cons}

pub data Flattened : Type 0 where
  html_text : Str → Flattened
  deferred_segments : Segments → Flattened

unfoldable pub into_html : Flattened → Option Str
into_html (html_text s) = some s
into_html (deferred_segments segments) = none

any_deferred : Segments → Bool
any_deferred nil = false
any_deferred (cons (html s) xs) = any_deferred xs
any_deferred (cons (deferred ty attrs kinds content) xs) = true

-- `if out.is_empty() { out = s } else { out.push_str(&s) }`
abbrev joined : Str → Str → Str
joined [] s = s
joined (c ∷ out) s = (c ∷ out) ++ s

join : Str → Segments → Str
join out nil = out
join out (cons (html s) xs) = join (joined out s) xs
join out (cons (deferred ty attrs kinds content) xs) = join out xs

unfoldable pub flatten : Segments → Flattened
unfolding any_deferred join
flatten segments =
    if any_deferred segments then deferred_segments segments else html_text (join [] segments)
