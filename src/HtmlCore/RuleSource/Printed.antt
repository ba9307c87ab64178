-- ===== src/HtmlCore/RuleSource/Printed.antt =====
-- Compiled rules are parsed back.
use yrby.Base.{
  ◌≡◌, ◌∙◌, refl, Bool, true, false, Option, none, some, List, [], ◌∷◌, Str, codes, str_eq,
}
use yrby.Base.Result.{ok}
use yrby.HtmlCore.Template.{AttrPart, lit, ref, Content, blocks, inline, no_content, MarkRule}
use yrby.HtmlCore.RuleSource.{
  Json, string, object, Members, empty, member, lookup, as_str, as_flag, parse_parts, attr_of,
  attr_entries, parse_attrs, content_of, template_of, tagged, parse_node_rule, mark_of,
  parse_mark_rule,
}
use yrby.HtmlCore.RuleSource.Compiled.{
  parts_json, attrs_json, NodeSpec, optional, void_json, attrs_value, text_value, contains_json,
  node_json, or_none, or_inline, meant, mark_json, markup, block,
}

module _ (debug : Str → Str) (name : Str) where
  parse_parts-parts_json :
      (parts : List AttrPart) → parse_parts debug name (parts_json parts) ≡ ok parts
  unfolding parse_parts parts_json lookup str_eq
  parse_parts-parts_json [] = refl
  parse_parts-parts_json (lit s ∷ ps) = rw (parse_parts-parts_json ps) refl
  parse_parts-parts_json (ref s ∷ ps) = rw (parse_parts-parts_json ps) refl

  attr_entries-attrs_json :
      (attrs : List (Str × List AttrPart)) → attr_entries debug name (attrs_json attrs) ≡ ok attrs
  unfolding attr_entries attr_of attrs_json
  attr_entries-attrs_json [] = refl
  attr_entries-attrs_json ((attr_name, parts) ∷ attrs) =
      rw (parse_parts-parts_json parts, attr_entries-attrs_json attrs) refl

  content_of-contains_json :
      (contains : Option Content)
      → content_of debug name (as_str (contains_json contains)) ≡ ok (or_inline contains)
  unfolding content_of str_eq
  content_of-contains_json none = refl
  content_of-contains_json (some blocks) = refl
  content_of-contains_json (some inline) = refl
  content_of-contains_json (some no_content) = refl

  template_of-text_value :
      (text : Option (List AttrPart)) → template_of debug name (text_value text) ≡ ok text
  unfolding template_of
  template_of-text_value none = refl
  template_of-text_value (some parts) = rw (parse_parts-parts_json parts) refl

  parse_attrs-attrs_value :
      (attrs : Option (List (Str × List AttrPart)))
      → parse_attrs debug name (attrs_value attrs) ≡ ok (or_none attrs)
  unfolding parse_attrs
  parse_attrs-attrs_value none = refl
  parse_attrs-attrs_value (some attrs) = rw (attr_entries-attrs_json attrs) refl

  as_flag-void_json : (void : Bool) → as_flag (void_json void) ≡ void
  as_flag-void_json true = refl
  as_flag-void_json false = refl

  -- An optional member is found under its key, if no member behind it has that key, and under no
  -- other key.
  lookup-optional :
      (key : Str) (v : Option Json) (rest : Members)
      → lookup rest key ≡ none
      → str_eq key key ≡ true
      → lookup (optional key v rest) key ≡ v
  unfolding lookup
  lookup-optional key none rest h e = h
  lookup-optional key (some v) rest h e = rw e refl

  lookup-past :
      (other key : Str) (v : Option Json) (rest : Members)
      → str_eq other key ≡ false
      → lookup (optional other v rest) key ≡ lookup rest key
  unfolding lookup
  lookup-past other key none rest e = refl
  lookup-past other key (some v) rest e = rw e refl

  -- The parser looks up each key once.
  parse_node_rule-lookup :
      (m : Members) (tag : Str) (void : Bool) (attrs : Option (List (Str × List AttrPart)))
      (text : Option (List AttrPart)) (contains : Option Content)
      → lookup m (codes "tag") ≡ some (string tag)
      → lookup m (codes "void") ≡ void_json void
      → lookup m (codes "attrs") ≡ attrs_value attrs
      → lookup m (codes "text") ≡ text_value text
      → lookup m (codes "content") ≡ contains_json contains
      → lookup m (codes "callback") ≡ none
      → parse_node_rule debug name (object m) ≡ ok (meant (markup tag void attrs text contains))
  unfolding parse_node_rule tagged
  parse_node_rule-lookup m tag void attrs text contains ht hv ha hx hc hb =
      rw
        (
          hc,
          content_of-contains_json contains,
          hb,
          ht,
          ha,
          parse_attrs-attrs_value attrs,
          hx,
          template_of-text_value text,
          hv,
          as_flag-void_json void,
        )
        refl

  -- A node rule compiled to JSON, which leaves out the keys of what it is not declared with, is
  -- parsed with no error to the rule that is meant.
  pub parse_node_rule-node_json :
      (spec : NodeSpec) → parse_node_rule debug name (node_json spec) ≡ ok (meant spec)
  unfolding parse_node_rule tagged lookup str_eq content_of
  parse_node_rule-node_json (markup tag void attrs text contains) =
      parse_node_rule-lookup
        (member (codes "tag") (string tag) (optional (codes "void") (void_json void) last_three))
        tag void attrs text contains refl
        (lookup-optional (codes "void") (void_json void) last_three
          (absent (codes "void") refl refl refl) refl)
        (lookup-past (codes "void") (codes "attrs") (void_json void) last_three refl
          ∙ lookup-optional (codes "attrs") (attrs_value attrs) last_two
              (lookup-past (codes "text") (codes "attrs") (text_value text) content refl
                ∙ lookup-past (codes "content") (codes "attrs") (contains_json contains) empty refl)
              refl)
        (lookup-past (codes "void") (codes "text") (void_json void) last_three refl
          ∙ lookup-past (codes "attrs") (codes "text") (attrs_value attrs) last_two refl
          ∙ lookup-optional (codes "text") (text_value text) content
              (lookup-past (codes "content") (codes "text") (contains_json contains) empty refl)
              refl)
        (lookup-past (codes "void") (codes "content") (void_json void) last_three refl
          ∙ lookup-past (codes "attrs") (codes "content") (attrs_value attrs) last_two refl
          ∙ lookup-past (codes "text") (codes "content") (text_value text) content refl
          ∙ lookup-optional (codes "content") (contains_json contains) empty refl refl)
        (lookup-past (codes "void") (codes "callback") (void_json void) last_three refl
          ∙ absent (codes "callback") refl refl refl)
    where
      content : Members
      content = optional (codes "content") (contains_json contains) empty

      last_two : Members
      last_two = optional (codes "text") (text_value text) content

      last_three : Members
      last_three = optional (codes "attrs") (attrs_value attrs) last_two

      absent :
          (key : Str)
          → str_eq (codes "attrs") key ≡ false
          → str_eq (codes "text") key ≡ false
          → str_eq (codes "content") key ≡ false
          → lookup last_three key ≡ none
      absent key ha hx hc =
          lookup-past (codes "attrs") key (attrs_value attrs) last_two ha
          ∙ lookup-past (codes "text") key (text_value text) content hx
          ∙ lookup-past (codes "content") key (contains_json contains) empty hc
  parse_node_rule-node_json (block none) = refl
  parse_node_rule-node_json (block (some slot)) = rw (content_of-contains_json (some slot)) refl

  -- A mark rule that is written out in the compiled shape is parsed to that rule, with no error.
  pub parse_mark_rule-mark_json :
      (rule : MarkRule) → parse_mark_rule debug name (mark_json rule) ≡ ok rule
  unfolding parse_mark_rule mark_of parse_attrs lookup str_eq
  parse_mark_rule-mark_json rule = rw (attr_entries-attrs_json rule.attrs) refl
