-- ===== src/HtmlCore/Markup/Build.antt =====
-- Ways to build markup that the renderers share.
use yrby.Base.{
  ◌≡◌, subst, List, [], ◌∷◌, ◌++◌, append_assoc, Str, codes, All, concat_map, arith, Bool, true,
  false, if◌then◌else◌,
}
use yrby.Base.Decimal.{IsNumeral}
use yrby.HtmlCore.Segment.Tokens.{Tok, ch, chars}
use yrby.HtmlCore.Escape.{escape_text, escape_attr}
use yrby.HtmlCore.Escape.Safe.{
  IsTextChar, IsValueChar, escape_text-IsTextChar, escape_attr-IsValueChar,
}
use yrby.HtmlCore.Markup.{
  IsName, Attributes, no_attributes, attribute, open_tag, close_tag, Markup, nothing, character,
  element, sequence,
}

pub chars-Markup : (s : Str) → All IsTextChar s → Markup (chars s)
chars-Markup [] h = nothing
chars-Markup (c ∷ s) (hc, h) = sequence (ch c ∷ []) (chars s) (character c hc) (chars-Markup s h)

pub escaped-Markup : (s : Str) → Markup (chars (escape_text s))
escaped-Markup s = chars-Markup (escape_text s) (escape_text-IsTextChar s)

pub concat_map-Markup :
    {A : Type 0} (f : A → List Tok) (xs : List A)
    → ((x : A) → Markup (f x))
    → Markup (concat_map f xs)
concat_map-Markup f [] h = nothing
concat_map-Markup f (x ∷ xs) h = sequence (f x) (concat_map f xs) (h x) (concat_map-Markup f xs h)

pub if-Markup :
    (b : Bool) (ts us : List Tok) → Markup ts → Markup us → Markup (if b then ts else us)
if-Markup true ts us p q = p
if-Markup false ts us p q = q

pub Attributes-append : {a b : Str} → Attributes a → Attributes b → Attributes (a ++ b)
Attributes-append no_attributes q = q
Attributes-append {b = b} (attribute n v r hn hv p) q =
    subst Attributes (regroup n v r b) (attribute n v (r ++ b) hn hv (Attributes-append p q))
  where
    regroup :
        (n v r b : Str)
        → codes " " ++ (n ++ (codes "=\"" ++ (v ++ (codes "\"" ++ (r ++ b)))))
          ≡ (codes " " ++ (n ++ (codes "=\"" ++ (v ++ (codes "\"" ++ r))))) ++ b
    regroup n v r b = simp append_assoc

-- ` name="value"` with the value escaped.
abbrev pub attr_text : Str → Str → Str
attr_text name value = codes " " ++ (name ++ (codes "=\"" ++ (escape_attr value ++ codes "\"")))

pub attr_text-Attributes : (name value : Str) → IsName name → Attributes (attr_text name value)
attr_text-Attributes name value h =
    attribute name (escape_attr value) [] h (escape_attr-IsValueChar value) no_attributes

numeral-IsValueChar : (s : Str) → All IsNumeral s → All IsValueChar s
numeral-IsValueChar [] h = tt
numeral-IsValueChar (c ∷ s) (hc, h) = (ground arith, numeral-IsValueChar s h)

pub numeral-Attributes :
    (name value : Str)
    → IsName name
    → All IsNumeral value
    → Attributes (codes " " ++ (name ++ (codes "=\"" ++ (value ++ codes "\""))))
numeral-Attributes name value h k =
    attribute name value [] h (numeral-IsValueChar value k) no_attributes

-- An element between its literal tags.
pub wrapped :
    (name : Str) (body : List Tok)
    → IsName name
    → Markup body
    → Markup (chars (open_tag name []) ++ (body ++ chars (close_tag name)))
wrapped name body h m = element name [] body h no_attributes m
