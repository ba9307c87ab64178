-- ===== src/ProseMirror/Marks/Paired.antt =====
-- Every mark of a run is an opening tag with the closing tag that fits it.
use mathlib.Core.List.{reverse_aux}
use Prim.Native.String.{String}
use yrby.Base.{
  subst, Option, none, some, Bool, true, false, if◌then◌else◌, List, [], ◌∷◌, ◌++◌, append_assoc,
  reverse, Str, codes, All, All-append, get, keep, contains_key, arith,
}
use yrby.Yrs.{Yrs, Any, Stored}
use yrby.HtmlCore.Escape.{escape_attr}
use yrby.HtmlCore.Template.{AttrPart, MarkRule, Rules, resolve_parts}
use yrby.HtmlCore.Markup.{IsName, Attributes, no_attributes, open_tag, close_tag}
use yrby.HtmlCore.Markup.Build.{attr_text, attr_text-Attributes, Attributes-append}
use yrby.HtmlCore.Markup.Named.{
  HasNamedAttrs, IsNamedMark, IsNamed, Found, get-Found, resolved_text-Attributes,
}
use yrby.Base.Sort.{sort_by_key}
use yrby.ProseMirror.Css.{entries, text_style_css}
use yrby.ProseMirror.Marks.{
  Mark, Attrs, link_value, link_attr_value, link_attrs, link_keys, link_open, tag_mark, when,
  css_mark, text_style, link_mark, custom_attrs, custom_mark_open, formats, link, custom_mark,
  custom_marks, claims, run_stack, mark_ref_attr,
}

pub data IsMark : Mark → Type 0 where
  paired :
      (name attrs : Str)
      → IsName name
      → Attributes attrs
      → IsMark (open_tag name attrs, close_tag name)

All-reverse_aux :
    {A : Type 0} (P : A → Type 0) (xs acc : List A)
    → All P xs
    → All P acc
    → All P (reverse_aux xs acc)
All-reverse_aux P [] acc h k = k
All-reverse_aux P (x ∷ xs) acc (h, hs) k = All-reverse_aux P xs (x ∷ acc) hs (h, k)

All-reverse : {A : Type 0} (P : A → Type 0) (xs : List A) → All P xs → All P (reverse xs)
All-reverse P xs h = All-reverse_aux P xs [] h tt

tag_mark-IsMark : (name : Str) → IsName name → IsMark (tag_mark name)
tag_mark-IsMark name h = paired name [] h no_attributes

when-IsMark : (b : Bool) (m : Mark) → IsMark m → All IsMark (when b m)
when-IsMark true m h = (h, tt)
when-IsMark false m h = tt

if-All :
    {A : Type 0} (P : A → Type 0) (b : Bool) (xs ys : List A)
    → All P xs
    → All P ys
    → All P (if b then xs else ys)
if-All P true xs ys p q = p
if-All P false xs ys p q = q

css_mark-IsMark : (css : Str) → All IsMark (css_mark css)
css_mark-IsMark [] = tt
css_mark-IsMark (c ∷ css) = (
  subst IsMark
      (λ i. (
        codes "<span style=\"" ++ append_assoc (escape_attr (c ∷ css)) (codes "\"") (codes ">") i,
        codes "</span>",
      ))
      (paired (codes "span") (attr_text (codes "style") (c ∷ css)) (ground arith)
        (attr_text-Attributes (codes "style") (c ∷ css) (ground arith))),
  tt,
)

text_style-IsMark : {F : Type 0} (o : Option (Any F)) → All IsMark (text_style o)
text_style-IsMark none = tt
text_style-IsMark (some (Any.map style)) = css_mark-IsMark (text_style_css style)
text_style-IsMark (some Any.null) = tt
text_style-IsMark (some _) = tt

link_attr_value-Attributes :
    {F : Type 0} (key : Str) (o : Option (Any F)) → IsName key → Attributes (link_attr_value key o)
link_attr_value-Attributes key none h = no_attributes
link_attr_value-Attributes key (some (Any.string v)) h =
    attr_text-Attributes key (link_value key v) h
link_attr_value-Attributes key (some Any.null) h = no_attributes
link_attr_value-Attributes key (some _) h = no_attributes

link_attrs-Attributes :
    {F : Type 0} (m : List (Str × Any F)) (keys : List Str)
    → All IsName keys
    → Attributes (link_attrs m keys)
unfolding link_attrs
link_attrs-Attributes m [] h = no_attributes
link_attrs-Attributes m (key ∷ keys) (h, hs) =
    Attributes-append (link_attr_value-Attributes key (get m key) h)
      (link_attrs-Attributes m keys hs)

link_mark-IsMark : {F : Type 0} (o : Option (Any F)) → All IsMark (link_mark o)
unfolding link_open
link_mark-IsMark none = tt
link_mark-IsMark (some (Any.map m)) = (
  paired (codes "a") (link_attrs (entries m) link_keys) (ground arith)
      (link_attrs-Attributes (entries m) link_keys (ground arith)),
  tt,
)
link_mark-IsMark (some Any.null) = tt
link_mark-IsMark (some _) = tt

-- The same of a list, as a record, so that the list is read off the goal.
record AreMarks (ms : List Mark) : Type 0 where
  all : All IsMark ms

no_marks : AreMarks []
no_marks = record { all = tt }

if_marks :
    (b : Bool) {ms ns : List Mark} → AreMarks ms → AreMarks ns → AreMarks (if b then ms else ns)
if_marks b {ms = ms} {ns = ns} p q = record { all = if-All IsMark b ms ns p.all q.all }

when_mark : (b : Bool) {m : Mark} → AreMarks (m ∷ []) → AreMarks (when b m)
when_mark b {m = m} p = record { all = when-IsMark b m p.all.0 }

append_marks : {ms ns : List Mark} → AreMarks ms → AreMarks ns → AreMarks (ms ++ ns)
append_marks {ms = ms} {ns = ns} p q = record { all = All-append IsMark ms ns p.all q.all }

name_mark : (s : String) → IsName (codes s) → AreMarks (tag_mark (codes s) ∷ [])
name_mark s h = record { all = (tag_mark-IsMark (codes s) h, tt) }

module _ (y : Yrs) (rules : Rules) where
  formats-IsMark : (marks : Attrs y.Float) → All IsMark (formats y rules marks)
  unfolding formats
  formats-IsMark marks =
      (if_marks _ (name_mark "code" (ground arith)) (
        if_marks _ no_marks (
          append_marks
            (if_marks _ (name_mark "sub" (ground arith))
              (when_mark _ (name_mark "sup" (ground arith))))
            (append_marks (when_mark _ (name_mark "mark" (ground arith))) (
              append_marks (when_mark _ (name_mark "u" (ground arith))) (
                append_marks (when_mark _ (name_mark "s" (ground arith))) (
                  append_marks (when_mark _ (name_mark "em" (ground arith))) (
                    append_marks (when_mark _ (name_mark "strong" (ground arith))) (
                      if_marks _ no_marks (record {
                        all = text_style-IsMark (get marks (codes "textStyle"));
                      })))))))))).all

  custom_attrs-Attributes :
      (value : Option (Stored y)) (attrs : List (Str × List AttrPart))
      → HasNamedAttrs attrs
      → Attributes (custom_attrs y rules value attrs)
  unfolding custom_attrs
  custom_attrs-Attributes value [] h = no_attributes
  custom_attrs-Attributes value ((name, parts) ∷ attrs) (h, hs) =
      Attributes-append
        (resolved_text-Attributes name (resolve_parts parts (mark_ref_attr y rules value)) h)
        (custom_attrs-Attributes value attrs hs)

  custom_mark-IsMark :
      (marks : Attrs y.Float) (name : Str) (o : Option MarkRule)
      → Found IsNamedMark o
      → All IsMark (custom_mark y rules marks name o)
  unfolding custom_mark_open
  custom_mark-IsMark marks name none h = tt
  custom_mark-IsMark marks name (some rule) h = (
    paired rule.tag (custom_attrs y rules (get marks name) rule.attrs) h.0
        (custom_attrs-Attributes (get marks name) rule.attrs h.1),
    tt,
  )

  custom_marks-IsMark :
      (marks : Attrs y.Float) (names : List (Str × MarkRule))
      → IsNamed rules
      → All IsMark (custom_marks y rules marks names)
  unfolding custom_marks
  custom_marks-IsMark marks [] h = tt
  custom_marks-IsMark marks ((name, _) ∷ names) h =
      All-append IsMark (custom_mark y rules marks name (get rules.marks name))
        (custom_marks y rules marks names)
        (custom_mark-IsMark marks name (get rules.marks name)
          (get-Found IsNamedMark rules.marks name h.marks))
        (custom_marks-IsMark marks names h)

  link-IsMark : (marks : Attrs y.Float) → All IsMark (link y rules marks)
  unfolding link
  link-IsMark marks =
      if-All IsMark (contains_key rules.marks (codes "link")) [] _ tt
        (link_mark-IsMark (get marks (codes "link")))

  pub run_stack-IsMark :
      (marks : Option (Attrs y.Float)) → IsNamed rules → All IsMark (run_stack y rules marks)
  unfolding run_stack
  run_stack-IsMark none h = tt
  run_stack-IsMark (some marks) h =
      let claimed = sort_by_key (keep (claims y rules marks) rules.marks) in
      All-reverse IsMark
        (formats y rules marks ++ (link y rules marks ++ custom_marks y rules marks claimed))
        (All-append IsMark (formats y rules marks)
          (link y rules marks ++ custom_marks y rules marks claimed) (formats-IsMark marks)
          (All-append IsMark (link y rules marks) (custom_marks y rules marks claimed)
            (link-IsMark marks) (custom_marks-IsMark marks claimed h)))
