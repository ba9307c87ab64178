-- ===== src/Tests/HtmlCore.antt =====
-- The theorems on the markup core at concrete inputs, and runs of the model.
use yrby.Base.{◌++◌, ◌≡◌, ◌≢◌, ◌↔◌, refl, Option, some, none, [], ◌∷◌, Str, codes, concat_map}
use yrby.HtmlCore.Segment.{Segments, nil, cons, html, deferred}
use yrby.HtmlCore.Segment.Tokens.{ch, hole, emit}
use yrby.HtmlCore.Emitter.{emitter}
use yrby.HtmlCore.Emitter.Frames.{append_op, performed, LeavesMerged, performed-LeavesMerged}
use yrby.HtmlCore.Emitter.{append}
use yrby.HtmlCore.Emitter.Emits.{Writes, Emits-captured}
use yrby.HtmlCore.Escape.{escape_attr}
use yrby.HtmlCore.Escape.Safe.{unescape, unescape-escape_attr}
use yrby.HtmlCore.Flatten.{flatten}
use yrby.HtmlCore.Flatten.Laws.{Flattens, flatten-Flattens}
use yrby.HtmlCore.Template.{lit, ref, resolve_parts}
use yrby.HtmlCore.Template.Resolved.{part_value, resolve_parts-some}
use yrby.HtmlCore.Url.{is_whitespace, url_scheme, url_scheme-ignores}

abbrev held : Segments
held = cons (html (codes "<p>")) (cons (deferred (codes "callout") [] [] nil) nil)

abbrev lookup : Str → Option Str
lookup name = some (codes "red")

unescape-escape_attr_example : unescape (escape_attr (codes "\"&quot;>")) ≡ codes "\"&quot;>"
unescape-escape_attr_example = unescape-escape_attr (codes "\"&quot;>")

flatten-Flattens_example : Flattens held (flatten held)
flatten-Flattens_example = flatten-Flattens held

performed-LeavesMerged_example :
    LeavesMerged (performed (append_op held) (emitter (held ∷ nil ∷ [])))
performed-LeavesMerged_example = performed-LeavesMerged (append_op held) held (nil ∷ []) tt (tt, tt)

Emits-captured_example :
    Writes (append (emit nil (ch b'a' ∷ hole [] [] [] nil ∷ []))) (ch b'a' ∷ hole [] [] [] nil ∷ [])
Emits-captured_example = Emits-captured (ch b'a' ∷ hole [] [] [] nil ∷ [])

resolve_parts-some_example :
    (resolve_parts (lit (codes "badge ") ∷ ref (codes "color") ∷ []) lookup
      ≡ some (codes "badge red"))
    ↔ ((codes "badge red" ≢ [])
        × (concat_map (part_value lookup) (lit (codes "badge ") ∷ ref (codes "color") ∷ [])
            ≡ codes "badge red"))
resolve_parts-some_example =
    resolve_parts-some (lit (codes "badge ") ∷ ref (codes "color") ∷ []) lookup (codes "badge red")

url_scheme-ignores_example :
    url_scheme (codes "java" ++ 9 ∷ codes "script:x")
    ≡ url_scheme (codes "java" ++ codes "script:x")
unfolding is_whitespace
url_scheme-ignores_example = url_scheme-ignores (codes "java") (codes "script:x") 9 refl

-- Runs of `url_scheme`: a scheme behind ignored characters, and a path with a colon.
url_scheme-tab : url_scheme (codes " JAVA\tscript:alert(1)") ≡ some (codes "javascript")
unfolding url_scheme
url_scheme-tab = refl

url_scheme-path : url_scheme (codes "/docs/a:b") ≡ none
unfolding url_scheme
url_scheme-path = refl
