-- ===== src/Lexical/Types.antt =====
-- `collect_node_types`, `observe_text_node` and `observe_element`.
pub mod Returns
use yrby.Base.{
  ℕ, zero, suc, ◌+◌, if◌then◌else◌, Bool, true, false, Option, none, some, List, [], ◌∷◌, ◌++◌, Str,
  codes, str_eq,
}
use yrby.Yrs.{
  Yrs, Stored, Any, any, y_map, y_xml_element, y_xml_text, other, element, fragment, text, Output,
  Node,
}
use yrby.HtmlCore.Outcome.{Outcome, panics, returns, and_then}
use yrby.HtmlCore.TypeMap.{TypeInfo, TypeMap}
use yrby.HtmlCore.TypeMap.Changes.{set_insert, change_entry, change_inserted, with_text, with_child}
use yrby.Lexical.Nodes.{node_type, elem_type, is_lexical_shaped}
use yrby.Lexical.Block.{max_block_depth}

-- `for (key, _) in .. { if key != "__type" { info.attrs.insert(key) } }`
unfoldable pub insert_names : {A : Type 0} → List (Str × A) → List Str → List Str
insert_names [] set = set
insert_names ((key, _) ∷ attributes) set =
    insert_names attributes (if str_eq key (codes "__type") then set else set_insert key set)

abbrev pub observed : {A : Type 0} → List (Str × A) → TypeInfo → TypeInfo
observed attributes info = record {
  count = info.count + 1;
  attrs = insert_names attributes info.attrs;
  children = info.children;
  has_text = info.has_text;
}

module _ (y : Yrs) where
  unfoldable pub observe_element : y.Element → TypeMap → TypeMap
  observe_element e map = change_entry (elem_type y e) (observed (y.attributes e)) map

  -- One turn of the loop over the content of a node of type `ty`.
  abbrev observe_piece : Str → Output y → TypeMap → Outcome TypeMap
  observe_piece ty (any (Any.string s)) map = change_inserted ty with_text map
  observe_piece ty (y_xml_text child) map = change_inserted ty (with_child (node_type y child)) map
  observe_piece ty (y_xml_element child) map =
      and_then (change_inserted ty (with_child (elem_type y child)) map)
        (λ m. returns (observe_element child m))
  observe_piece ty _ map = returns map

  unfoldable pub observe_pieces :
      Str → List (Output y × Option (List (Str × Stored y))) → TypeMap → Outcome TypeMap
  observe_pieces ty [] map = returns map
  observe_pieces ty ((d, _) ∷ diff) map =
      and_then (observe_piece ty d map) (λ m. observe_pieces ty diff m)

  abbrev child_of : Output y → List y.Text
  child_of (y_xml_text child) = child ∷ []
  child_of _ = []

  -- The vector `children` behind the loop.
  unfoldable pub text_children : List (Output y × Option (List (Str × Stored y))) → List y.Text
  text_children [] = []
  text_children ((d, _) ∷ diff) = child_of d ++ text_children diff

  unfoldable pub observe_all :
      (y.Text → TypeMap → Outcome TypeMap) → List y.Text → TypeMap → Outcome TypeMap
  observe_all deeper [] map = returns map
  observe_all deeper (child ∷ children) map =
      and_then (deeper child map) (λ m. observe_all deeper children m)

  -- `left` is `MAX_BLOCK_DEPTH - depth`.
  unfoldable pub observe_text_node : ℕ → y.Text → TypeMap → Outcome TypeMap
  observe_text_node zero t map =
      returns (change_entry (node_type y t) (observed (y.text_attributes t)) map)
  observe_text_node (suc left) t map =
      and_then
        (observe_pieces (node_type y t) (y.diff t)
          (change_entry (node_type y t) (observed (y.text_attributes t)) map))
        (λ m. observe_all (observe_text_node left) (text_children (y.diff t)) m)

  observe_roots : List (Node y) → TypeMap → Outcome TypeMap
  observe_roots [] map = returns map
  observe_roots (text t ∷ nodes) map =
      and_then (observe_text_node max_block_depth t map) (λ m. observe_roots nodes m)
  observe_roots (element e ∷ nodes) map = observe_roots nodes (observe_element e map)
  observe_roots (fragment _ ∷ nodes) map = observe_roots nodes map

  unfoldable pub collect_node_types : y.Fragment → Outcome (Option TypeMap)
  unfolding observe_roots
  collect_node_types f =
      if is_lexical_shaped y f
      then and_then (observe_roots (y.roots f) []) (λ map. returns (some map))
      else returns none
