-- ===== src/HtmlCore/TypeMap/Changes.antt =====
-- How both renderers' `collect_node_types` change the type map.
use yrby.Base.{if◌then◌else◌, true, false, List, [], ◌∷◌, Str, str_eq, str_le}
use yrby.HtmlCore.Outcome.{Outcome, panics, returns}
use yrby.HtmlCore.TypeMap.{TypeInfo, TypeMap}

-- `BTreeSet::insert`
unfoldable pub set_insert : Str → List Str → List Str
unfolding str_le
set_insert s [] = s ∷ []
set_insert s (t ∷ ts) =
    let rest = set_insert s ts in
    if str_eq s t then t ∷ ts else if str_le s t then s ∷ (t ∷ ts) else t ∷ rest

abbrev default_info : TypeInfo
default_info = record { count = 0; attrs = []; children = []; has_text = false }

-- `map.entry(ty).or_default()`, changed by `f`.
unfoldable pub change_entry : Str → (TypeInfo → TypeInfo) → TypeMap → TypeMap
unfolding str_le
change_entry ty f [] = (ty, f default_info) ∷ []
change_entry ty f ((k, info) ∷ map) =
    let rest = change_entry ty f map in
    if str_eq k ty
    then (k, f info) ∷ map
    else if str_le ty k
    then (ty, f default_info) ∷ ((k, info) ∷ map)
    else (k, info) ∷ rest

-- `map.get_mut(&ty).expect("just inserted")`, changed by `f`.
unfoldable pub change_inserted : Str → (TypeInfo → TypeInfo) → TypeMap → Outcome TypeMap
change_inserted ty f [] = panics
change_inserted ty f ((k, info) ∷ map) =
    let rest = change_inserted ty f map in
    if str_eq k ty
    then returns ((k, f info) ∷ map)
    else elim rest [ panics ↦ panics | returns m ↦ returns ((k, info) ∷ m) ]

abbrev pub with_text : TypeInfo → TypeInfo
with_text info = record {
  count = info.count;
  attrs = info.attrs;
  children = info.children;
  has_text = true;
}

abbrev pub with_child : Str → TypeInfo → TypeInfo
with_child ty info = record {
  count = info.count;
  attrs = info.attrs;
  children = set_insert ty info.children;
  has_text = info.has_text;
}
