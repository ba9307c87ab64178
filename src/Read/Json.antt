-- ===== src/Read/Json.antt =====
-- `map_json`, `array_json`, `any_to_json` and `out_to_any`.
pub mod Stable
use yrby.Base.{Bool, true, false, if◌then◌else◌, List, [], ◌∷◌, ◌++◌, Str, codes}
use yrby.Base.Sort.{sort_by_key}
use yrby.Yrs.{Yrs, Any, Items, end, item, Entries, empty, entry, Stored}

-- What a snapshot holds at a place, with the shared types' content: a string of a text or an XML
-- node, or the values of an array or a map.
mutual
  pub data Held (F : Type 0) : Type 0 where
    any : Any F → Held F
    y_text : Str → Held F
    y_xml_text : Str → Held F
    y_xml_element : Str → Held F
    y_xml_fragment : Str → Held F
    y_array : HeldItems F → Held F
    y_map : HeldEntries F → Held F
    other : Held F

  pub data HeldItems (F : Type 0) : Type 0 where
    done : HeldItems F
    next : Held F → HeldItems F → HeldItems F

  pub data HeldEntries (F : Type 0) : Type 0 where
    closed : HeldEntries F
    field : Str → Held F → HeldEntries F → HeldEntries F

-- `out_to_any`, and its loops. The keys of a shared map are distinct, so that each insertion into
-- the hash map adds an entry.
unfoldable mutual
  pub out_to_any : {F : Type 0} → Held F → Any F
  out_to_any (any a) = a
  out_to_any (y_text s) = Any.string s
  out_to_any (y_xml_text s) = Any.string s
  out_to_any (y_xml_element s) = Any.string s
  out_to_any (y_xml_fragment s) = Any.string s
  out_to_any (y_array held) = Any.array (items_of held)
  out_to_any (y_map fields) = Any.map (entries_of fields)
  out_to_any other = Any.null

  pub items_of : {F : Type 0} → HeldItems F → Items F
  items_of done = end
  items_of (next v held) = item (out_to_any v) (items_of held)

  pub entries_of : {F : Type 0} → HeldEntries F → Entries F
  entries_of closed = empty
  entries_of (field k v fields) = entry k (out_to_any v) (entries_of fields)

-- The separator in front of every entry but the first, `if i > 0 { out.push(',') }`.
abbrev pub comma : Bool → Str
comma first = if first then [] else codes ","

-- The loop over the sorted pairs, with the keys and the values as JSON.
unfoldable pub write_pairs : Bool → List (Str × (Str × Str)) → Str
write_pairs first [] = []
write_pairs first ((_, (key, value)) ∷ pairs) =
    comma first ++ (key ++ (codes ":" ++ (value ++ write_pairs false pairs)))

module _ (y : Yrs) where
  abbrev pub scalar_json : Stored y → Str
  scalar_json = y.to_json

  -- The values of the pairs are written before the pairs are sorted; nothing depends on which is
  -- first.
  unfoldable mutual
    pub any_to_json : Stored y → Str
    any_to_json (Any.array items) = codes "[" ++ (write_items true items ++ codes "]")
    any_to_json (Any.map entries) =
        codes "{" ++ (write_pairs true (sort_by_key (json_pairs entries)) ++ codes "}")
    any_to_json a = scalar_json a

    pub write_items : Bool → Items y.Float → Str
    write_items first end = []
    write_items first (item a items) = comma first ++ (any_to_json a ++ write_items false items)

    pub json_pairs : Entries y.Float → List (Str × (Str × Str))
    json_pairs empty = []
    json_pairs (entry key a entries) =
        (key, (scalar_json (Any.string key), any_to_json a)) ∷ json_pairs entries

  unfoldable pub map_json : HeldEntries y.Float → Str
  map_json fields = any_to_json (Any.map (entries_of fields))

  unfoldable pub array_json : HeldItems y.Float → Str
  array_json held = any_to_json (Any.array (items_of held))
