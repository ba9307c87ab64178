-- ===== src/HtmlCore/RuleSource/Compiled.antt =====
-- A rule as lib/y/rendering.rb compiles it to JSON, and the rule that is meant.
use yrby.Base.{Bool, true, false, Option, none, some, List, [], ◌∷◌, Str, codes}
use yrby.HtmlCore.Template.{
  AttrPart, lit, ref, Content, blocks, inline, no_content, NodeRule, declarative, callback,
  MarkRule,
}
use yrby.HtmlCore.RuleSource.{
  Json, bool, string, array, object, Elements, end, element, Members, empty, member,
}

abbrev pub part_json : AttrPart → Json
part_json (lit s) = object (member (codes "lit") (string s) empty)
part_json (ref s) = object (member (codes "ref") (string s) empty)

unfoldable pub parts_json : List AttrPart → Elements
parts_json [] = end
parts_json (p ∷ ps) = element (part_json p) (parts_json ps)

unfoldable pub attrs_json : List (Str × List AttrPart) → Elements
unfolding parts_json
attrs_json [] = end
attrs_json ((name, parts) ∷ attrs) =
    element (array (element (string name) (element (array (parts_json parts)) end)))
      (attrs_json attrs)

abbrev pub content_name : Content → Str
content_name blocks = codes "blocks"
content_name inline = codes "inline"
content_name no_content = codes "none"

-- What a rule is declared with: what is not given has no key in the compiled rule.
pub data NodeSpec : Type 0 where
  markup :
      (tag : Str) (void : Bool) (attrs : Option (List (Str × List AttrPart)))
      (text : Option (List AttrPart)) (contains : Option Content)
      → NodeSpec
  block : (contains : Option Content) → NodeSpec

-- A member where there is a value.
abbrev pub optional : Str → Option Json → Members → Members
optional key none rest = rest
optional key (some v) rest = member key v rest

abbrev pub void_json : Bool → Option Json
void_json false = none
void_json true = some (bool true)

abbrev pub attrs_value : Option (List (Str × List AttrPart)) → Option Json
attrs_value none = none
attrs_value (some attrs) = some (array (attrs_json attrs))

abbrev pub text_value : Option (List AttrPart) → Option Json
text_value none = none
text_value (some parts) = some (array (parts_json parts))

abbrev pub contains_json : Option Content → Option Json
contains_json none = none
contains_json (some slot) = some (string (content_name slot))

-- The rule as lib/y/rendering.rb compiles it.
abbrev pub node_json : NodeSpec → Json
node_json (markup tag void attrs text contains) = object (
    member (codes "tag") (string tag) (
      optional (codes "void") (void_json void) (
        optional (codes "attrs") (attrs_value attrs) (
          optional (codes "text") (text_value text)
            (optional (codes "content") (contains_json contains) empty)))))
node_json (block contains) = object (
    member (codes "callback") (bool true)
      (optional (codes "content") (contains_json contains) empty))

abbrev pub or_none : Option (List (Str × List AttrPart)) → List (Str × List AttrPart)
or_none none = []
or_none (some attrs) = attrs

abbrev pub or_inline : Option Content → Content
or_inline none = inline
or_inline (some slot) = slot

-- The rule that is meant: without attributes, and with inline content, where those are not given.
abbrev pub meant : NodeSpec → NodeRule
meant (markup tag void attrs text contains) =
    declarative tag void (or_none attrs) text (or_inline contains)
meant (block contains) = callback (or_inline contains)

abbrev pub mark_json : MarkRule → Json
mark_json rule = object (
    member (codes "tag") (string rule.tag)
      (member (codes "attrs") (array (attrs_json rule.attrs)) empty))
