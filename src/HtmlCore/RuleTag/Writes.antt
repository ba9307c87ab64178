-- ===== src/HtmlCore/RuleTag/Writes.antt =====
-- The tokens of a rule's opening tag, template text and closing tag.
use yrby.Base.{
  ◌≡◌, refl, ap, ◌∙◌, subst, Option, none, some, List, [], ◌∷◌, ◌++◌, Str, codes, concat_map,
}
use yrby.HtmlCore.Segment.Tokens.{Tok, chars, chars-append}
use yrby.HtmlCore.Emitter.Emits.{
  Writes, Emits-pure, Emits-push_str, Emits-push, Emits-for_each, seq,
}
use yrby.HtmlCore.Escape.{escape_text, escape_attr}
use yrby.HtmlCore.Template.{AttrPart, resolve_parts}
use yrby.HtmlCore.Markup.{open_tag, close_tag, Markup, nothing}
use yrby.HtmlCore.Markup.Build.{escaped-Markup}
use yrby.HtmlCore.Markup.Named.{resolved_text, rule_attrs}
use yrby.HtmlCore.RuleTag.{
  push_value, push_attr, push_open_tag, push_escaped, push_template, push_close_tag,
}

pub chars-concat_map :
    {A : Type 0} (f : A → Str) (xs : List A)
    → concat_map (λ x. chars (f x)) xs ≡ chars (concat_map f xs)
chars-concat_map f [] = refl
chars-concat_map f (x ∷ xs) = simp (chars-concat_map f xs, chars-append)

pub attr_pieces :
    (name v : Str)
    → chars (codes " ") ++ (chars name ++ (chars (codes "=\"") ++ (chars v ++ chars (codes "\""))))
      ≡ chars (codes " " ++ (name ++ (codes "=\"" ++ (v ++ codes "\""))))
attr_pieces name v = simp chars-append

-- A value and the quote behind it.
pub value_pieces :
    (front v : Str)
    → chars front ++ (chars v ++ chars (codes "\"")) ≡ chars (front ++ (v ++ codes "\""))
value_pieces front v = simp chars-append

Writes-push_value :
    (name : Str) (o : Option Str) → Writes (push_value name o) (chars (resolved_text name o))
Writes-push_value name none = Emits-pure tt
Writes-push_value name (some v) =
    subst (Writes (push_value name (some v))) (attr_pieces name (escape_attr v)) (
      seq (Emits-push b' ') (
        seq (Emits-push_str name) (
          seq (Emits-push_str (codes "=\""))
            (seq (Emits-push_str (escape_attr v)) (Emits-push b'"')))))

tag_pieces :
    (tag attrs : Str)
    → chars (codes "<") ++ (chars tag ++ (chars attrs ++ chars (codes ">")))
      ≡ chars (open_tag tag attrs)
tag_pieces tag attrs = simp chars-append

pub Writes-push_open_tag :
    (tag : Str) (attrs : List (Str × List AttrPart)) (lookup : Str → Option Str)
    → Writes (push_open_tag tag attrs lookup) (chars (open_tag tag (rule_attrs lookup attrs)))
unfolding push_open_tag push_attr
Writes-push_open_tag tag attrs lookup =
    subst (Writes (push_open_tag tag attrs lookup))
      (ap (λ ts. chars (codes "<") ++ (chars tag ++ (ts ++ chars (codes ">"))))
          (chars-concat_map
            (λ (a : Str × List AttrPart). resolved_text a.0 (resolve_parts a.1 lookup)) attrs)
        ∙ tag_pieces tag (rule_attrs lookup attrs))
      (seq (Emits-push b'<') (
        seq (Emits-push_str tag) (
          seq
            (Emits-for_each (push_attr lookup)
              (λ a. chars (resolved_text a.0 (resolve_parts a.1 lookup))) attrs
              (λ (name, parts). Writes-push_value name (resolve_parts parts lookup)))
            (Emits-push b'>'))))

abbrev pub escaped_tokens : Option Str → List Tok
escaped_tokens none = []
escaped_tokens (some v) = chars (escape_text v)

abbrev pub template_tokens : Option (List AttrPart) → (Str → Option Str) → List Tok
template_tokens none lookup = []
template_tokens (some parts) lookup = escaped_tokens (resolve_parts parts lookup)

Writes-push_escaped : (o : Option Str) → Writes (push_escaped o) (escaped_tokens o)
Writes-push_escaped none = Emits-pure tt
Writes-push_escaped (some v) = Emits-push_str (escape_text v)

pub Writes-push_template :
    (o : Option (List AttrPart)) (lookup : Str → Option Str)
    → Writes (push_template o lookup) (template_tokens o lookup)
unfolding push_template
Writes-push_template none lookup = Emits-pure tt
Writes-push_template (some parts) lookup = Writes-push_escaped (resolve_parts parts lookup)

escaped_tokens-Markup : (o : Option Str) → Markup (escaped_tokens o)
escaped_tokens-Markup none = nothing
escaped_tokens-Markup (some v) = escaped-Markup v

pub template_tokens-Markup :
    (o : Option (List AttrPart)) (lookup : Str → Option Str) → Markup (template_tokens o lookup)
template_tokens-Markup none lookup = nothing
template_tokens-Markup (some parts) lookup = escaped_tokens-Markup (resolve_parts parts lookup)

pub Writes-push_close_tag : (tag : Str) → Writes (push_close_tag tag) (chars (close_tag tag))
unfolding push_close_tag
Writes-push_close_tag tag =
    subst (Writes (push_close_tag tag)) (pieces tag)
      (seq (Emits-push_str (codes "</")) (seq (Emits-push_str tag) (Emits-push b'>')))
  where
    pieces : (t : Str) → chars (codes "</") ++ (chars t ++ chars (codes ">")) ≡ chars (close_tag t)
    pieces t = simp chars-append
