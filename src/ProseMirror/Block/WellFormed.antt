-- ===== src/ProseMirror/Block/WellFormed.antt =====
-- What a block renders to is markup.
use yrby.Base.{
  is_one_of, str_eq, refl, ◌≡◌, sym, subst, false, Option, none, some, List, [], ◌∷◌, ◌++◌,
  append-nil, append_assoc, Str, codes, arith, All-append, ◌==◌, inl, inr, Bool-cases,
}
use yrby.Base.Int.{ℤ, pos, negsuc}
use yrby.Base.Decimal.{show_ℤ, show_ℤ-IsNumeral}
use yrby.Yrs.{Yrs, element, fragment, text, Node}
use yrby.HtmlCore.Segment.Tokens.{Tok, chars, chars-append}
use yrby.HtmlCore.Escape.{escape_text, escape_attr}
use yrby.HtmlCore.Escape.Safe.{IsValueChar, escape_attr-IsValueChar}
use yrby.HtmlCore.Template.{Rules}
use yrby.HtmlCore.Markup.{
  IsName, Attributes, no_attributes, attribute, open_tag, close_tag, Markup, nothing,
  element as element_markup, void_element, sequence,
}
use yrby.HtmlCore.Markup.Build.{
  concat_map-Markup, escaped-Markup, numeral-Attributes, Attributes-append,
}
use yrby.HtmlCore.Markup.Named.{IsNamed}
use yrby.HtmlCore.Work.Plan.{container}
use yrby.HtmlCore.Work.WellFormed.{around, tbody_around, PlanOk, if-PlanOk}
use yrby.HtmlCore.Paragraph.{paragraph_tokens-Markup}
use yrby.ProseMirror.Runs.Nesting.{run_tokens-Markup}
use yrby.ProseMirror.Inline.{str_attr, num_attr, max_depth}
use yrby.ProseMirror.Inline.WellFormed.{image_text-Markup, inline_tokens-Markup}
use yrby.ProseMirror.Arms.{
  Arm, paragraph, heading, code_block, blockquote, bullet_list, ordered_list, list_item, table,
  table_row, table_header, table_cell, horizontal_rule, image, hard_break, unknown, heading_digit,
  heading_digit_bounds, or_one,
}
use yrby.ProseMirror.Block.{code_text, has_element_child}
use yrby.ProseMirror.Block.Plan.{
  ol_tokens, language_tokens, stray_token, stray_tokens, inline_of, cell_head, plan_arm,
}

start_Markup :
    (n : ℤ) (front kids : List Tok)
    → Markup front
    → Markup kids
    → Markup (
        ((chars (codes "<ol start=\"") ++ (chars (show_ℤ n) ++ chars (codes "\">"))) ++ front)
        ++ (kids ++ chars (codes "</ol>")))
start_Markup n front kids hf hk =
    subst (λ ts. Markup ((ts ++ front) ++ (kids ++ chars (codes "</ol>")))) (pieces (show_ℤ n))
      (around (codes "ol") _ front kids (ground arith)
        (numeral-Attributes (codes "start") (show_ℤ n) (ground arith) (show_ℤ-IsNumeral n)) hf hk)
  where
    pieces :
        (v : Str)
        → chars (
            open_tag
              (codes "ol")
              (codes " " ++ (codes "start" ++ (codes "=\"" ++ (v ++ codes "\"")))))
          ≡ chars (codes "<ol start=\"") ++ (chars v ++ chars (codes "\">"))
    pieces v = simp (chars-append, append_assoc)

ol_Markup :
    (o : Option ℤ) (front kids : List Tok)
    → Markup front
    → Markup kids
    → Markup ((ol_tokens o ++ front) ++ (kids ++ chars (codes "</ol>")))
ol_Markup none front kids hf hk =
    around (codes "ol") [] front kids (ground arith) no_attributes hf hk
ol_Markup (some (negsuc n)) front kids hf hk = start_Markup (negsuc n) front kids hf hk
ol_Markup (some (pos n)) front kids hf hk = elim (Bool-cases (n == 1)) [
  | inl e ↦ rw e (around (codes "ol") [] front kids (ground arith) no_attributes hf hk)
  | inr e ↦ rw e (start_Markup (pos n) front kids hf hk)
]

heading_Markup :
    (o : Option ℤ) (body : List Tok)
    → Markup body
    → Markup (
        chars (codes "<h")
        ++ (chars (heading_digit o ∷ [])
            ++ (chars (codes ">")
                ++ (body
                    ++ (chars (codes "</h")
                        ++ (chars (heading_digit o ∷ []) ++ chars (codes ">")))))))
heading_Markup o body h =
    element_markup (b'h' ∷ heading_digit o ∷ []) [] body (named o) no_attributes h
  where
    named : (o : Option ℤ) → IsName (b'h' ∷ heading_digit o ∷ [])
    named o = ground (arith, heading_digit_bounds o)

abbrev language_attrs : Option Str → Str
language_attrs none = []
language_attrs (some []) = []
language_attrs (some (c ∷ lang)) =
    codes " class=\"" ++ ((codes "language-" ++ escape_attr (c ∷ lang)) ++ codes "\"")

language-Attributes : (o : Option Str) → Attributes (language_attrs o)
language-Attributes none = no_attributes
language-Attributes (some []) = no_attributes
language-Attributes (some (c ∷ lang)) =
    attribute (codes "class") (codes "language-" ++ escape_attr (c ∷ lang)) [] (ground arith)
      (All-append IsValueChar (codes "language-") (escape_attr (c ∷ lang)) (ground arith)
        (escape_attr-IsValueChar (c ∷ lang)))
      no_attributes

code_pieces :
    (o : Option Str) (body : List Tok)
    → chars (codes "<pre>")
        ++ ((chars (open_tag (codes "code") (language_attrs o))
              ++ (body ++ chars (codes "</code>")))
            ++ chars (codes "</pre>"))
      ≡ chars (codes "<pre><code")
        ++ (language_tokens o ++ (chars (codes ">") ++ (body ++ chars (codes "</code></pre>"))))
code_pieces none body = simp append_assoc
code_pieces (some []) body = simp append_assoc
code_pieces (some (c ∷ lang)) body = simp (chars-append, append_assoc)

code_Markup :
    (o : Option Str) (s : Str)
    → Markup (
        chars (codes "<pre><code")
        ++ (language_tokens o
            ++ (chars (codes ">") ++ (chars (escape_text s) ++ chars (codes "</code></pre>")))))
code_Markup o s = subst Markup (code_pieces o (chars (escape_text s))) (
    element_markup (codes "pre") [] _ (ground arith) no_attributes (
      element_markup (codes "code") (language_attrs o) (chars (escape_text s)) (ground arith)
        (language-Attributes o) (escaped-Markup s)))

cell_Markup :
    (name a b : Str) (front kids : List Tok)
    → IsName name
    → Attributes (codes " colspan=\"" ++ (a ++ codes "\""))
    → Attributes (codes " rowspan=\"" ++ (b ++ codes "\""))
    → Markup front
    → Markup kids
    → Markup (
        (chars (codes "<")
          ++ (chars name
              ++ (chars (codes " colspan=\"")
                  ++ (chars a
                      ++ (chars (codes "\" rowspan=\"")
                          ++ (chars b ++ (chars (codes "\">") ++ front)))))))
        ++ (kids ++ chars (close_tag name)))
cell_Markup name a b front kids hn ha hb hf hk =
    subst (λ ts. Markup (ts ++ (kids ++ chars (close_tag name)))) (pieces name a b front)
      (around name _ front kids hn (Attributes-append ha hb) hf hk)
  where
    pieces :
        (name a b : Str) (front : List Tok)
        → chars (
              open_tag name (
                (codes " colspan=\"" ++ (a ++ codes "\""))
                ++ (codes " rowspan=\"" ++ (b ++ codes "\""))))
            ++ front
          ≡ chars (codes "<")
            ++ (chars name
                ++ (chars (codes " colspan=\"")
                    ++ (chars a
                        ++ (chars (codes "\" rowspan=\"")
                            ++ (chars b ++ (chars (codes "\">") ++ front))))))
    pieces name a b front = simp (chars-append, append_assoc)

module _ (y : Yrs) (rules : Rules) (named : IsNamed rules) where
  pub stray-Markup : (e : y.Element) → Markup (stray_tokens y rules e)
  stray-Markup e = concat_map-Markup (stray_token y rules) (y.children e) at_node
    where
      at_node : (node : Node y) → Markup (stray_token y rules node)
      at_node (text t) = run_tokens-Markup y rules named t
      at_node (element _) = nothing
      at_node (fragment _) = nothing

  cell-PlanOk :
      (name : Str) (e : y.Element)
      → IsName name
      → PlanOk (container (cell_head y rules name e) false (close_tag name))
  cell-PlanOk name e h kids hk =
      let a = or_one (num_attr y e (codes "colspan")) in
      let b = or_one (num_attr y e (codes "rowspan")) in
      cell_Markup name (show_ℤ a) (show_ℤ b) (stray_tokens y rules e) kids h
        (numeral-Attributes (codes "colspan") (show_ℤ a) (ground arith) (show_ℤ-IsNumeral a))
        (numeral-Attributes (codes "rowspan") (show_ℤ b) (ground arith) (show_ℤ-IsNumeral b))
        (stray-Markup e) hk

  container-PlanOk :
      (name : Str) (e : y.Element)
      → IsName name
      → PlanOk
          (container (chars (open_tag name []) ++ stray_tokens y rules e) false (close_tag name))
  container-PlanOk name e h kids hk =
      around name [] (stray_tokens y rules e) kids h no_attributes (stray-Markup e) hk

  pub arm-PlanOk : (a : Arm) (e : y.Element) → PlanOk (plan_arm y rules a e)
  unfolding plan_arm is_one_of str_eq
  arm-PlanOk paragraph e kids hk =
      element_markup (codes "p") [] (inline_of y rules e) (ground arith) no_attributes
        (inline_tokens-Markup y rules named max_depth e)
  arm-PlanOk heading e kids hk =
      heading_Markup (num_attr y e (codes "level")) (inline_of y rules e)
        (inline_tokens-Markup y rules named max_depth e)
  arm-PlanOk code_block e kids hk = code_Markup (str_attr y e (codes "language")) (code_text y e)
  arm-PlanOk blockquote e kids hk = container-PlanOk (codes "blockquote") e (ground arith) kids hk
  arm-PlanOk bullet_list e kids hk = container-PlanOk (codes "ul") e (ground arith) kids hk
  arm-PlanOk ordered_list e kids hk =
      ol_Markup (num_attr y e (codes "start")) (stray_tokens y rules e) kids (stray-Markup e) hk
  arm-PlanOk list_item e kids hk = container-PlanOk (codes "li") e (ground arith) kids hk
  arm-PlanOk table e kids hk = tbody_around (stray_tokens y rules e) kids (stray-Markup e) hk
  arm-PlanOk table_row e kids hk = container-PlanOk (codes "tr") e (ground arith) kids hk
  arm-PlanOk table_header e kids hk = cell-PlanOk (codes "th") e (ground arith) kids hk
  arm-PlanOk table_cell e kids hk = cell-PlanOk (codes "td") e (ground arith) kids hk
  arm-PlanOk horizontal_rule e kids hk =
      void_element (codes "hr") [] (ground arith) refl no_attributes
  arm-PlanOk image e kids hk = image_text-Markup (str_attr y e)
  arm-PlanOk hard_break e kids hk = void_element (codes "br") [] (ground arith) refl no_attributes
  arm-PlanOk unknown e kids hk =
      if-PlanOk (has_element_child y e) _ _
        (λ _ kids hk.
          sequence (stray_tokens y rules e) (kids ++ []) (stray-Markup e)
            (subst Markup (sym (append-nil kids)) hk))
        (λ kids hk.
          paragraph_tokens-Markup [] (inline_of y rules e) nothing
            (inline_tokens-Markup y rules named max_depth e))
        kids hk
