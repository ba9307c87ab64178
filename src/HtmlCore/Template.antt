-- ===== src/HtmlCore/Template.antt =====
-- Templates, which are resolved against a node's stored attributes, and the rules that hold them.
pub mod Resolved
use yrby.Base.{
  ℕ, Bool, true, false, if◌then◌else◌, Option, none, some, List, [], ◌∷◌, ◌++◌, Str, codes,
}
use yrby.Base.Decimal.{show_ℤ}
use yrby.Yrs.{Yrs, Number, int, float, Any, Out, any, Stored, Output}

pub data AttrPart : Type 0 where
  lit : Str → AttrPart
  ref : Str → AttrPart

-- `if out.is_empty() { None } else { Some(out) }`
abbrev pub non_empty : Str → Option Str
non_empty [] = none
non_empty (c ∷ s) = some (c ∷ s)

abbrev pub or_empty : Option Str → Str
or_empty none = []
or_empty (some v) = v

-- One round of the loop: what the part adds to `out`.
abbrev pub fill : (Str → Option Str) → Str → AttrPart → Str
fill lookup out (lit s) = out ++ s
fill lookup out (ref name) = out ++ or_empty (lookup name)

fill_all : (Str → Option Str) → Str → List AttrPart → Str
fill_all lookup out [] = out
fill_all lookup out (part ∷ parts) = fill_all lookup (fill lookup out part) parts

unfoldable pub resolve_parts : List AttrPart → (Str → Option Str) → Option Str
unfolding fill_all
resolve_parts parts lookup = non_empty (fill_all lookup [] parts)

pub data Content : Type 0 where
  blocks inline no_content : Content

-- `declarative tag void attrs text content`
pub data NodeRule : Type 0 where
  declarative :
      Str → Bool → List (Str × List AttrPart) → Option (List AttrPart) → Content → NodeRule
  callback : Content → NodeRule

pub record MarkRule : Type 0 where
  pub tag : Str
  pub attrs : List (Str × List AttrPart)

pub record Rules : Type 0 where
  pub nodes : List (Str × NodeRule)
  pub marks : List (Str × MarkRule)

abbrev pub empty_rules : Rules
empty_rules = record { nodes = []; marks = [] }

module _ (y : Yrs) where
  unfoldable pub any_attr_string : Stored y → Option Str
  any_attr_string (Any.string s) = some s
  any_attr_string (Any.number (int n)) = some (show_ℤ n)
  any_attr_string (Any.number (float n)) =
      some (if y.is_whole n then show_ℤ (y.to_i64 n) else y.format_float n)
  any_attr_string (Any.bool b) = some (if b then codes "true" else codes "false")
  any_attr_string _ = none

  -- the closure `value`
  abbrev any_value : Option (Output y) → Option Str
  any_value (some (any a)) = any_attr_string a
  any_value _ = none

  abbrev or_else : Option Str → Option Str → Option Str
  or_else none b = b
  or_else (some a) b = some a

  -- `get_attribute` is the node's.
  unfoldable pub xml_ref_attr : (Str → Option (Output y)) → Str → Option Str
  unfolding any_attr_string
  xml_ref_attr get_attribute name =
      or_else (any_value (get_attribute name)) (any_value (get_attribute (codes "__" ++ name)))

  abbrev json_key : Option Str → Str
  json_key none = codes "\"\""
  json_key (some s) = s

  -- The loop over the attributes: `first` says that nothing is written yet.
  json_members : Bool → List (Str × Output y) → Str
  json_members first [] = []
  json_members first ((key, any a) ∷ rest) =
      (if first then [] else codes ",")
      ++ (json_key (y.json_string key) ++ (codes ":" ++ (y.to_json a ++ json_members false rest)))
  json_members first ((key, _) ∷ rest) = json_members first rest

  unfoldable pub xml_attrs_json : List (Str × Output y) → Str
  unfolding json_members
  xml_attrs_json attributes = codes "{" ++ (json_members true attributes ++ codes "}")
