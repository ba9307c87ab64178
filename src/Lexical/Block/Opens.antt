-- ===== src/Lexical/Block/Opens.antt =====
-- `open_block` carries out its block's plan.
use yrby.Base.{
  ℕ, subst, Bool, true, false, Option, none, some, List, [], ◌∷◌, ◌++◌, Str, codes, get, keep,
}
use yrby.Base.Decimal.{show_ℤ}
use yrby.Yrs.{Yrs}
use yrby.HtmlCore.Segment.Tokens.{Tok, chars}
use yrby.HtmlCore.Emitter.{Render}
use yrby.HtmlCore.Emitter.Emits.{
  Emits, Writes, Emits-push_str, Emits-push, Emits-frame, seq, ending,
}
use yrby.HtmlCore.Template.{NodeRule, Rules}
use yrby.HtmlCore.Markup.{open_tag}
use yrby.HtmlCore.Work.{Work, close, push_opens}
use yrby.HtmlCore.Work.Plan.{Plan, Opens, if-Opens}
use yrby.HtmlCore.Work.Rule.{open_rule-Opens}
use yrby.HtmlCore.Paragraph.{paragraph_tokens, Writes-push_paragraph_or}
use yrby.Lexical.Nodes.{node_type, str_attr, block_children}
use yrby.Lexical.Inline.{text_node}
use yrby.Lexical.Inline.Written.{Writes-render_inline}
use yrby.Lexical.Inline.{max_inline_depth}
use yrby.Lexical.Block.{
  Arm, paragraph, heading, quote, code, list, listitem, table, tablerow, tablecell, unknown, arm,
  heading_tag, is_ordered, list_tag, item_value, item_checked, is_list, has_any, inline_content,
  open_rule_block, open_listitem, then_children, in_paragraph, open_arm, open_by, open_block,
}
use yrby.Lexical.Block.Plan.{
  language_text, checked_text, item_text, inline_of, plan_arm, plan_by, plan, arm_children,
  children_by, pushed_children,
}
use yrby.Lexical.Block.Pushed.{
  Writes-push_language, Writes-push_checked, tag_pieces, bare_pieces, close_pieces, item_pieces,
  push_block_children-lists, push_block_children-all,
}

module _ (y : Yrs) (rules : Rules) (t : y.Text) (left : ℕ) (stack : List (Work y.Text)) where
  Writes-inline_content :
      (ruled : Bool) → Writes (inline_content y rules ruled t) (inline_of y rules ruled t)
  Writes-inline_content ruled = Writes-render_inline y rules max_inline_depth ruled t

  abbrev OpensWith : List y.Text → Plan → Render (List (Work y.Text)) → Type 0
  OpensWith kids p m = Opens kids left stack p m

  abbrev on_stack : List y.Text → Str → List (Work y.Text)
  on_stack kids s = push_opens left kids (close s ∷ stack)

  Emits-then_children :
      (s : Str)
      → Emits
          (then_children y rules s t left stack)
          (on_stack (block_children y t) s)
          (inline_of y rules false t)
  Emits-then_children s =
      subst (λ st. Emits (then_children y rules s t left stack) st (inline_of y rules false t))
        (push_block_children-all y t left s stack) (ending _ (Writes-inline_content false))

  Emits-in_paragraph :
      (empty : Str)
      → Emits
          (in_paragraph y rules empty t left stack)
          stack
          (paragraph_tokens empty (inline_of y rules true t))
  Emits-in_paragraph empty =
      Emits-frame (inline_content y rules true t) _ stack (inline_of y rules true t) _
        (Writes-inline_content true)
        (ending stack (Writes-push_paragraph_or empty (inline_of y rules true t)))

  abbrev item_head : List Tok
  item_head =
      chars (
        open_tag (codes "li") (
          item_text (item_checked y (y.text_attribute t (codes "__checked")))
            (show_ℤ (item_value y (y.text_attribute t (codes "__value"))))))
      ++ inline_of y rules true t

  Emits-open_listitem :
      OpensWith
        (keep (is_list y) (block_children y t))
        (plan_arm y rules listitem t)
        (open_listitem y rules t left stack)
  unfolding open_listitem plan_arm
  Emits-open_listitem =
      subst (λ st. Emits (open_listitem y rules t left stack) st item_head)
        (push_block_children-lists y t left (codes "</li>") stack)
        (subst (Emits _ _)
          (item_pieces (checked_text (item_checked y (y.text_attribute t (codes "__checked"))))
            (show_ℤ (item_value y (y.text_attribute t (codes "__value"))))
            (inline_of y rules true t))
          (seq (Emits-push_str (codes "<li")) (
            seq (Writes-push_checked _) (
              seq (Emits-push_str (codes " value=\"")) (
                seq (Emits-push_str _) (
                  seq (Emits-push b'"')
                    (seq (Emits-push b'>') (ending _ (Writes-inline_content true)))))))))

  open_arm-Opens :
      (a : Arm)
      → OpensWith
          (arm_children y rules a t)
          (plan_arm y rules a t)
          (open_arm y rules a t left stack)
  unfolding open_arm plan_arm
  open_arm-Opens paragraph = Emits-in_paragraph (codes "<p><br></p>")
  open_arm-Opens heading =
      let tag = heading_tag (str_attr y t (codes "__tag")) in
      subst (Emits _ stack) (bare_pieces tag _) (
        seq (Emits-push b'<') (
          seq (Emits-push_str tag) (
            seq (Emits-push b'>') (
              seq (Writes-inline_content true) (
                subst (Emits _ stack) (close_pieces tag) (
                  seq (Emits-push_str (codes "</"))
                    (seq (Emits-push_str tag) (ending stack (Emits-push b'>')))))))))
  open_arm-Opens quote =
      seq (Emits-push_str (codes "<blockquote>"))
        (seq (Writes-inline_content true) (ending stack (Emits-push_str (codes "</blockquote>"))))
  open_arm-Opens code =
      subst (Emits _ stack)
        (tag_pieces (codes "pre") (language_text (str_attr y t (codes "__language"))) _)
        (seq (Emits-push_str (codes "<pre")) (
          seq (Writes-push_language _) (
            seq (Emits-push b'>')
              (seq (Writes-inline_content true) (ending stack (Emits-push_str (codes "</pre>")))))))
  open_arm-Opens list =
      let tag = list_tag (is_ordered (str_attr y t (codes "__tag"))) in
      subst (Emits _ _) (bare_pieces tag _) (
        seq (Emits-push b'<')
          (seq (Emits-push_str tag) (seq (Emits-push b'>') (Emits-then_children _))))
  open_arm-Opens listitem = Emits-open_listitem
  open_arm-Opens table =
      seq (Emits-push_str (codes "<table><tbody>")) (Emits-then_children (codes "</tbody></table>"))
  open_arm-Opens tablerow =
      seq (Emits-push_str (codes "<tr>")) (Emits-then_children (codes "</tr>"))
  open_arm-Opens tablecell = seq (Emits-push_str _) (Emits-then_children _)
  open_arm-Opens unknown =
      if-Opens (block_children y t) left stack (has_any y (block_children y t)) _ _ _ _
        (Emits-then_children []) (Emits-in_paragraph [])

  by-Opens :
      (rule : Option NodeRule)
      → OpensWith
          (children_by y rules rule t)
          (plan_by y rules rule t)
          (open_by y rules rule t left stack)
  unfolding open_rule_block
  by-Opens none = open_arm-Opens (arm (node_type y t))
  by-Opens (some rule) =
      open_rule-Opens (text_node y t) _ _ _ _ (Writes-inline_content true)
        (Writes-inline_content false) left stack rule

  pub open_block-Opens :
      OpensWith (pushed_children y rules t) (plan y rules t) (open_block y rules t left stack)
  unfolding open_block plan pushed_children
  open_block-Opens = by-Opens (get rules.nodes (node_type y t))
