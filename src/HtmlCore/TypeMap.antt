-- ===== src/HtmlCore/TypeMap.antt =====
-- `TypeInfo`, `TypeMap` and `type_map_json`, of ext/yrby/crates/html-core/src/lib.rs.
pub mod Changes
pub mod Keeps
use yrby.Base.{ℕ, Bool, Option, none, some, List, [], ◌∷◌, Str, codes}
use yrby.Base.Decimal.{show_ℕ}
use yrby.HtmlCore.RuleSource.{
  Json, null, bool, number, string, array, object, Elements, end, element, Members, empty, member,
}

pub record TypeInfo : Type 0 where
  pub count : ℕ
  pub attrs : List Str
  pub children : List Str
  pub has_text : Bool

-- A `BTreeMap`: the entries in the order of their keys.
abbrev pub TypeMap : Type 0
TypeMap = List (Str × TypeInfo)

strings : List Str → Elements
strings [] = end
strings (s ∷ ss) = element (string s) (strings ss)

abbrev handled_by : Option Str → Json
handled_by none = null
handled_by (some by) = string by

-- The members of an entry in the order of their keys, in which `serde_json::Map` keeps them.
entry_json : (Str → Option Str) → Str → TypeInfo → Json
unfolding strings
entry_json handled ty info = object (
    member (codes "attrs") (array (strings info.attrs)) (
      member (codes "children") (array (strings info.children)) (
        member (codes "count") (number (show_ℕ info.count)) (
          member (codes "handled") (handled_by (handled ty))
            (member (codes "text") (bool info.has_text) empty)))))

entries_json : (Str → Option Str) → TypeMap → Members
unfolding entry_json
entries_json handled [] = empty
entries_json handled ((ty, info) ∷ map) =
    member ty (entry_json handled ty info) (entries_json handled map)

-- `to_string` is that of a `serde_json::Value`; the keys of the map are distinct, and in order.
unfoldable pub type_map_json : (Json → Str) → TypeMap → (Str → Option Str) → Str
unfolding entries_json
type_map_json to_string map handled = to_string (object (entries_json handled map))
