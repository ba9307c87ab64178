-- ===== src/HtmlCore/RuleSource.antt =====
-- `Rules::parse` and what it calls, of ext/yrby/crates/html-core/src/lib.rs, on a parsed JSON value.
pub mod Compiled
pub mod Printed
use yrby.Base.{
  ℕ, zero, suc, Bool, true, false, if◌then◌else◌, Option, none, some, List, [], ◌∷◌, ◌++◌, Str,
  codes, str_eq, get, insert,
}
use yrby.Base.Result.{Result, ok, err, ◌>>=◌}
use yrby.HtmlCore.Template.{
  AttrPart, lit, ref, Content, blocks, inline, no_content, NodeRule, declarative, callback,
  MarkRule, Rules, empty_rules,
}

-- `serde_json::Value`; `Elements` and `Members` stand for its `Vec` and `Map`. A number is its text.
mutual
  pub data Json : Type 0 where
    null : Json
    bool : Bool → Json
    number : Str → Json
    string : Str → Json
    array : Elements → Json
    object : Members → Json

  pub data Elements : Type 0 where
    end : Elements
    element : Json → Elements → Elements

  pub data Members : Type 0 where
    empty : Members
    member : Str → Json → Members → Members

-- `Map::get`: an object's keys are distinct.
unfoldable pub lookup : Members → Str → Option Json
lookup empty key = none
lookup (member k v rest) key = let found = lookup rest key in if str_eq k key then some v else found

-- `value.get(key)` and `value.get(0)`, `value.get(1)`
abbrev pub field : Json → Str → Option Json
field (object m) key = lookup m key
field _ key = none

abbrev first : Json → Option Json
first (array (element v rest)) = some v
first _ = none

abbrev second : Json → Option Json
second (array (element v (element w rest))) = some w
second _ = none

abbrev pub as_str : Option Json → Option Str
as_str (some (string s)) = some s
as_str _ = none

-- `.and_then(|v| v.as_bool()).unwrap_or(false)`
abbrev pub as_flag : Option Json → Bool
as_flag (some (bool b)) = b
as_flag _ = false

module _ (debug : Str → Str) where
  -- `format!("rule for {name:?}{text}")`, where `debug` is `{:?}` of a string.
  abbrev rule_error : {A : Type 0} → Str → Str → Result A
  rule_error name text = err (codes "rule for " ++ (debug name ++ text))

  abbrev part_of : Str → Option Str → Option Str → Result AttrPart
  part_of name (some s) r = ok (lit s)
  part_of name none (some r) = ok (ref r)
  part_of name none none = rule_error name (codes ": template part must be lit or ref")

  unfoldable pub parse_parts : Str → Elements → Result (List AttrPart)
  parse_parts name end = ok []
  parse_parts name (element part parts) =
      part_of name (as_str (field part (codes "lit"))) (as_str (field part (codes "ref"))) >>= λ p.
      parse_parts name parts >>= λ ps. ok (p ∷ ps)

  attr_of : Str → Option Str → Option Json → Result (Str × List AttrPart)
  unfolding parse_parts
  attr_of name (some attr_name) (some (array parts)) =
      parse_parts name parts >>= λ ps. ok (attr_name, ps)
  attr_of name _ _ = rule_error name (codes ": malformed attrs entry")

  attr_entries : Str → Elements → Result (List (Str × List AttrPart))
  unfolding attr_of
  attr_entries name end = ok []
  attr_entries name (element entry entries) =
      attr_of name (as_str (first entry)) (second entry) >>= λ a.
      attr_entries name entries >>= λ rest. ok (a ∷ rest)

  unfoldable pub parse_attrs : Str → Option Json → Result (List (Str × List AttrPart))
  unfolding attr_entries
  parse_attrs name none = ok []
  parse_attrs name (some null) = ok []
  parse_attrs name (some (array entries)) = attr_entries name entries
  parse_attrs name (some _) =
      rule_error name (codes ": attrs must be an array of [name, template] pairs")

  content_of : Str → Option Str → Result Content
  content_of name none = ok inline
  content_of name (some kind) =
      if str_eq kind (codes "blocks")
      then ok blocks
      else if str_eq kind (codes "inline")
      then ok inline
      else if str_eq kind (codes "none")
      then ok no_content
      else (rule_error name
          (codes ": unknown content kind " ++ (debug kind ++ codes " (blocks|inline|none)")))

  template_of : Str → Option Json → Result (Option (List AttrPart))
  unfolding parse_parts
  template_of name none = ok none
  template_of name (some null) = ok none
  template_of name (some (array parts)) = parse_parts name parts >>= λ ps. ok (some ps)
  template_of name (some _) = rule_error name (codes ": text must be a template array")

  tagged : Str → Json → Content → Option Str → Result NodeRule
  unfolding parse_attrs template_of
  tagged name spec slot none = rule_error name (codes " needs a tag (or a callback)")
  tagged name spec slot (some tag) = parse_attrs name (field spec (codes "attrs")) >>= λ attrs.
      template_of name (field spec (codes "text")) >>= λ template.
      ok (declarative tag (as_flag (field spec (codes "void"))) attrs template slot)

  unfoldable pub parse_node_rule : Str → Json → Result NodeRule
  unfolding content_of tagged
  parse_node_rule name spec = content_of name (as_str (field spec (codes "content"))) >>= λ content.
      if as_flag (field spec (codes "callback"))
      then ok (callback content)
      else tagged name spec content (as_str (field spec (codes "tag")))

  mark_of : Str → Json → Option Str → Result MarkRule
  unfolding parse_attrs
  mark_of name spec none = err (codes "mark rule for " ++ (debug name ++ codes " needs a tag"))
  mark_of name spec (some tag) = parse_attrs name (field spec (codes "attrs")) >>= λ attrs.
      ok (record { tag = tag; attrs = attrs })

  unfoldable pub parse_mark_rule : Str → Json → Result MarkRule
  unfolding mark_of
  parse_mark_rule name spec = mark_of name spec (as_str (field spec (codes "tag")))

  -- A loop over an object's members, each inserted under its name.
  unfoldable pub parse_members :
      {V : Type 0} → (Str → Json → Result V) → List (Str × V) → Members → Result (List (Str × V))
  parse_members parse acc empty = ok acc
  parse_members parse acc (member name spec rest) =
      parse name spec >>= λ v. parse_members parse (insert acc name v) rest

  abbrev members_of : {V : Type 0} → (Str → Json → Result V) → Option Json → Result (List (Str × V))
  members_of parse (some (object m)) = parse_members parse [] m
  members_of parse _ = ok []

  -- `Rules::parse`, behind `serde_json::from_str`.
  unfoldable pub parse : Json → Result Rules
  unfolding parse_node_rule parse_mark_rule parse_members
  parse root = members_of parse_node_rule (field root (codes "nodes")) >>= λ nodes.
      members_of parse_mark_rule (field root (codes "marks")) >>= λ marks.
      ok (record { nodes = nodes; marks = marks })
