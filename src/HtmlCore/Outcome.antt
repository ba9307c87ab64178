-- ===== src/HtmlCore/Outcome.antt =====
-- What `render_segments` and `render` of both renderers come to: a result, or a panic.
use yrby.Base.{sym, subst, if◌then◌else◌, Bool, true, false, Option, none, some, List, Str}
use yrby.HtmlCore.Segment.{Segments, nil}
use yrby.HtmlCore.Segment.Tokens.{Tok, emit, tokens, tokens-emit}
use yrby.HtmlCore.Segment.Merged.{IsMerged, emit-IsMerged}
use yrby.HtmlCore.Emitter.{Emitter, into_segments}
use yrby.HtmlCore.Flatten.{flatten, into_html}
use yrby.HtmlCore.Markup.{Markup}

-- The outcome of code that may panic.
pub data Outcome (A : Type 0) : Type 0 where
  panics : Outcome A
  returns : A → Outcome A

-- What panics goes no further.
abbrev pub and_then : {A B : Type 0} → Outcome A → (A → Outcome B) → Outcome B
and_then panics f = panics
and_then (returns a) f = f a

abbrev pub segments_of : Option (Unit {0} × Emitter) → Outcome (Option Segments)
segments_of none = panics
segments_of (some (_, em)) = returns (some (into_segments em))

-- `.into_html().expect("no callback rules registered")`
abbrev pub expect_html : Option Str → Outcome (Option Str)
expect_html none = panics
expect_html (some s) = returns (some s)

abbrev pub html_of : Outcome (Option Segments) → Outcome (Option Str)
html_of panics = panics
html_of (returns none) = returns none
html_of (returns (some segments)) = expect_html (into_html (flatten segments))

-- The segments of a rendered document are merged, and show well-formed markup.
abbrev pub IsSound : Outcome (Option Segments) → Type 0
IsSound panics = ⊥
IsSound (returns none) = Unit
IsSound (returns (some x)) = IsMerged x × Markup (tokens x)

-- What emits markup is sound, whether the document is rendered or declined.
pub declined-IsSound :
    (b : Bool) (ts : List Tok)
    → Markup ts
    → IsSound (returns (if b then some (emit nil ts) else none))
unfolding tokens
declined-IsSound true ts h = (emit-IsMerged nil ts tt, subst Markup (sym (tokens-emit nil ts)) h)
declined-IsSound false ts h = tt
