-- ===== src/ProseMirror/Document/Plain.antt =====
-- Without rules, no callback node is emitted, so that `render` never panics.
use yrby.Base.{
  ℕ, zero, suc, ◌==◌, sym, subst, if◌then◌else◌, Option, none, some, List, [], ◌∷◌, ◌++◌, reverse,
  Str, codes, get, is_one_of, str_eq,
}
use yrby.Base.Int.{ℤ, pos, negsuc}
use yrby.Base.Decimal.{show_ℤ}
use yrby.Yrs.{Yrs, Any, any, element, fragment, text, Output, Node}
use yrby.HtmlCore.Segment.Tokens.{Tok, chars}
use yrby.HtmlCore.Escape.{escape_text, escape_attr}
use yrby.HtmlCore.Template.{empty_rules}
use yrby.ProseMirror.Marks.{Mark, Attrs, run_stack}
use yrby.ProseMirror.Runs.{shared, drop}
use yrby.ProseMirror.Runs.Tokens.{opens, closes, last_open, loop_tokens, run_tokens}
use yrby.ProseMirror.Inline.{num_attr, str_attr, max_depth, element_children}
use yrby.ProseMirror.Inline.Tokens.{image_text, node_tokens, inline_tokens}
use yrby.HtmlCore.Outcome.{html_of}
use yrby.HtmlCore.Plain.{
  IsPlain, IsPlain-chars, IsPlain-append, then_chars, IsPlain-concat_map, IsPlain-if, around,
  PlainPlan, if-PlainPlan, IsPlain-paragraph_tokens, IsPlain-tree_tokens, IsRendered,
  declined-IsRendered,
}
use yrby.ProseMirror.Arms.{
  Arm, paragraph, heading, code_block, blockquote, bullet_list, ordered_list, list_item, table,
  table_row, table_header, table_cell, horizontal_rule, image, hard_break, unknown, arm, or_one,
}
use yrby.ProseMirror.Block.{code_text, has_element_child}
use yrby.ProseMirror.Block.Plan.{
  ol_tokens, language_tokens, stray_token, stray_tokens, inline_of, plan_arm, plan,
}
use yrby.ProseMirror.Document.{is_prosemirror_shaped, render}
use yrby.ProseMirror.Document.Rendering.{
  root_tokens, document_tokens, document_tokens-Markup, render_segments-document_tokens,
}
use yrby.HtmlCore.Markup.Named.{empty_rules-IsNamed}

module _ (y : Yrs) where
  loop-IsPlain :
      (open_marks : List Mark) (runs : List (Output y × Option (Attrs y.Float)))
      → IsPlain (loop_tokens y empty_rules open_marks runs)
  unfolding loop_tokens
  loop-IsPlain open_marks [] = tt
  loop-IsPlain open_marks ((any (Any.string s), attributes) ∷ runs) =
      let stack = run_stack y empty_rules attributes in
      let n = shared open_marks stack in
      IsPlain-append (closes (reverse (drop n open_marks))) _
        (IsPlain-concat_map _ (reverse (drop n open_marks)) (λ m. IsPlain-chars m.1))
        (IsPlain-append (opens (drop n stack)) _
          (IsPlain-concat_map _ (drop n stack) (λ m. IsPlain-chars m.0))
          (then_chars (escape_text s) _ (loop-IsPlain stack runs)))
  loop-IsPlain open_marks ((any Any.null, attributes) ∷ runs) = loop-IsPlain open_marks runs
  loop-IsPlain open_marks ((any _, attributes) ∷ runs) = loop-IsPlain open_marks runs
  loop-IsPlain open_marks ((_, attributes) ∷ runs) = loop-IsPlain open_marks runs

  run-IsPlain : (t : y.Text) → IsPlain (run_tokens y empty_rules t)
  unfolding run_tokens
  run-IsPlain t =
      IsPlain-append (loop_tokens y empty_rules [] (y.diff t)) _ (loop-IsPlain [] (y.diff t)) (
        IsPlain-concat_map _ (reverse (last_open y empty_rules [] (y.diff t)))
          (λ m. IsPlain-chars m.1))

  node-IsPlain :
      (f : y.Element → List Tok) (node : Node y)
      → ((e : y.Element) → IsPlain (f e))
      → IsPlain (node_tokens y empty_rules f node)
  unfolding get
  node-IsPlain f (text t) h = run-IsPlain t
  node-IsPlain f (element child) h =
      let breaks = is_one_of (codes "hardBreak" ∷ codes "hard_break" ∷ []) (y.tag child) in
      let shows = str_eq (codes "image") (y.tag child) in
      let picture = chars (image_text (str_attr y child)) in
      IsPlain-if breaks (chars (codes "<br>")) (if shows then picture else f child) tt (
        IsPlain-if shows picture (f child) (IsPlain-chars (image_text (str_attr y child)))
          (h child))
  node-IsPlain f (fragment _) h = tt

  inline-IsPlain : (left : ℕ) (e : y.Element) → IsPlain (inline_tokens y empty_rules left e)
  unfolding inline_tokens
  inline-IsPlain zero e =
      IsPlain-concat_map _ (y.children e) (λ node. node-IsPlain (λ _. []) node (λ _. tt))
  inline-IsPlain (suc left) e =
      IsPlain-concat_map _ (y.children e)
        (λ node. node-IsPlain (inline_tokens y empty_rules left) node (inline-IsPlain left))

  stray-IsPlain : (e : y.Element) → IsPlain (stray_tokens y empty_rules e)
  stray-IsPlain e = IsPlain-concat_map (stray_token y empty_rules) (y.children e) at_node
    where
      at_node : (node : Node y) → IsPlain (stray_token y empty_rules node)
      at_node (text t) = run-IsPlain t
      at_node (element _) = tt
      at_node (fragment _) = tt

  ol-IsPlain : (o : Option ℤ) → IsPlain (ol_tokens o)
  ol-IsPlain none = tt
  ol-IsPlain (some (negsuc n)) = then_chars (show_ℤ (negsuc n)) (chars (codes "\">")) tt
  ol-IsPlain (some (pos n)) =
      IsPlain-if (n == 1) (chars (codes "<ol>"))
        (chars (codes "<ol start=\"") ++ (chars (show_ℤ (pos n)) ++ chars (codes "\">"))) tt
        (then_chars (show_ℤ (pos n)) (chars (codes "\">")) tt)

  language-IsPlain : (o : Option Str) → IsPlain (language_tokens o)
  language-IsPlain none = tt
  language-IsPlain (some []) = tt
  language-IsPlain (some (c ∷ lang)) = then_chars (escape_attr (c ∷ lang)) (chars (codes "\"")) tt

  cell-IsPlain :
      (a b : Str) (stray kids : List Tok) (s : Str)
      → IsPlain stray
      → IsPlain kids
      → IsPlain (
          (chars a
            ++ (chars (codes "\" rowspan=\"") ++ (chars b ++ (chars (codes "\">") ++ stray))))
          ++ (kids ++ chars s))
  cell-IsPlain a b stray kids s p q =
      IsPlain-append
        (chars a ++ (chars (codes "\" rowspan=\"") ++ (chars b ++ (chars (codes "\">") ++ stray))))
        _ (then_chars a _ (then_chars b _ p)) (IsPlain-append kids (chars s) q (IsPlain-chars s))

  stray_around :
      (e : y.Element) (kids : List Tok) (s : Str)
      → IsPlain kids
      → IsPlain (stray_tokens y empty_rules e ++ (kids ++ chars s))
  stray_around e kids s q = around (stray_tokens y empty_rules e) kids s (stray-IsPlain e) q

  arm-PlainPlan : (a : Arm) (e : y.Element) → PlainPlan (plan_arm y empty_rules a e)
  unfolding plan_arm
  arm-PlainPlan paragraph e kids q =
      IsPlain-append (inline_of y empty_rules e) (chars (codes "</p>")) (inline-IsPlain max_depth e)
        tt
  arm-PlainPlan heading e kids q =
      IsPlain-append (inline_of y empty_rules e) _ (inline-IsPlain max_depth e) tt
  arm-PlainPlan code_block e kids q =
      IsPlain-append (language_tokens (str_attr y e (codes "language"))) _
        (language-IsPlain (str_attr y e (codes "language")))
        (then_chars (escape_text (code_text y e)) (chars (codes "</code></pre>")) tt)
  arm-PlainPlan blockquote e kids q = stray_around e kids (codes "</blockquote>") q
  arm-PlainPlan bullet_list e kids q = stray_around e kids (codes "</ul>") q
  arm-PlainPlan ordered_list e kids q =
      around (ol_tokens (num_attr y e (codes "start")) ++ stray_tokens y empty_rules e) kids
        (codes "</ol>")
        (IsPlain-append (ol_tokens (num_attr y e (codes "start"))) _
          (ol-IsPlain (num_attr y e (codes "start"))) (stray-IsPlain e))
        q
  arm-PlainPlan list_item e kids q = stray_around e kids (codes "</li>") q
  arm-PlainPlan table e kids q = stray_around e kids (codes "</tbody></table>") q
  arm-PlainPlan table_row e kids q = stray_around e kids (codes "</tr>") q
  arm-PlainPlan table_header e kids q =
      cell-IsPlain (show_ℤ (or_one (num_attr y e (codes "colspan"))))
        (show_ℤ (or_one (num_attr y e (codes "rowspan")))) (stray_tokens y empty_rules e) kids
        (codes "</th>") (stray-IsPlain e) q
  arm-PlainPlan table_cell e kids q =
      cell-IsPlain (show_ℤ (or_one (num_attr y e (codes "colspan"))))
        (show_ℤ (or_one (num_attr y e (codes "rowspan")))) (stray_tokens y empty_rules e) kids
        (codes "</td>") (stray-IsPlain e) q
  arm-PlainPlan horizontal_rule e kids q = tt
  arm-PlainPlan image e kids q = IsPlain-chars (image_text (str_attr y e))
  arm-PlainPlan hard_break e kids q = tt
  arm-PlainPlan unknown e kids q =
      if-PlainPlan (has_element_child y e) _ _ (λ ks k. stray_around e ks [] k)
        (λ ks k.
          IsPlain-paragraph_tokens [] (inline_of y empty_rules e) (inline-IsPlain max_depth e))
        kids q

  plan-PlainPlan : (e : y.Element) → PlainPlan (plan y empty_rules e)
  unfolding plan get
  plan-PlainPlan e = arm-PlainPlan (arm (y.tag e)) e

  document-IsPlain : (f : y.Fragment) → IsPlain (document_tokens y empty_rules f)
  unfolding document_tokens
  document-IsPlain f = IsPlain-concat_map (root_tokens y empty_rules) (y.roots f) at_node
    where
      at_node : (node : Node y) → IsPlain (root_tokens y empty_rules node)
      at_node (element e) =
          IsPlain-tree_tokens (element_children y) (plan y empty_rules) plan-PlainPlan max_depth e
      at_node (text t) = run-IsPlain t
      at_node (fragment f) = IsPlain-chars (escape_text (y.fragment_string f))

module _ (y : Yrs) where
  -- `render` never panics: no callback node is left without rules. It gives well-formed, escaped
  -- markup exactly for a ProseMirror-shaped document, and nothing for any other.
  pub render-IsRendered : (f : y.Fragment) → IsRendered (is_prosemirror_shaped y f) (render y f)
  unfolding render
  render-IsRendered f =
      subst (λ o. IsRendered (is_prosemirror_shaped y f) (html_of o))
        (sym (render_segments-document_tokens y empty_rules f))
        (declined-IsRendered (is_prosemirror_shaped y f) (document_tokens y empty_rules f)
          (document-IsPlain y f) (document_tokens-Markup y empty_rules f empty_rules-IsNamed))
