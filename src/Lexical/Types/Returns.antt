-- ===== src/Lexical/Types/Returns.antt =====
-- Collecting the node types never panics: an entry that is inserted stays.
use yrby.Base.{
  ℕ, zero, suc, ◌≡◌, refl, if◌then◌else◌, Bool, true, false, Option, none, some, List, [], ◌∷◌, Str,
  contains_key,
}
use yrby.Yrs.{
  Yrs, Stored, Any, any, y_map, y_xml_element, y_xml_text, other, element, fragment, text, Output,
  Node,
}
use yrby.HtmlCore.Outcome.{Outcome, returns, and_then}
use yrby.HtmlCore.TypeMap.{TypeMap}
use yrby.HtmlCore.TypeMap.Changes.{with_text, with_child}
use yrby.HtmlCore.TypeMap.Keeps.{
  Keeps, change_entry-inserts, change_inserted-Keeps, and_then-Keeps, Keeps-change_entry,
  IsCollected,
}
use yrby.Lexical.Nodes.{node_type, elem_type, is_lexical_shaped}
use yrby.Lexical.Block.{max_block_depth}
use yrby.Lexical.Types.{
  observed, observe_element, observe_piece, observe_pieces, text_children, observe_all,
  observe_text_node, observe_roots, collect_node_types,
}

Keeps-returns : (map : TypeMap) → Keeps map (returns map)
Keeps-returns map = record { result = map; returned = refl; kept = λ key h. h }

module _ (y : Yrs) where
  Keeps-observe_element :
      (e : y.Element) (map : TypeMap) → Keeps map (returns (observe_element y e map))
  unfolding observe_element
  Keeps-observe_element e map =
      Keeps-change_entry (elem_type y e) (observed (y.attributes e)) map _ (Keeps-returns _)

  Keeps-observe_piece :
      (ty : Str) (d : Output y) (map : TypeMap)
      → contains_key map ty ≡ true
      → Keeps map (observe_piece y ty d map)
  Keeps-observe_piece ty (any (Any.string s)) map k = change_inserted-Keeps ty with_text map k
  Keeps-observe_piece ty (y_xml_text child) map k =
      change_inserted-Keeps ty (with_child (node_type y child)) map k
  Keeps-observe_piece ty (y_xml_element child) map k =
      and_then-Keeps map _ _ (change_inserted-Keeps ty (with_child (elem_type y child)) map k)
        (λ m _. Keeps-observe_element child m)
  Keeps-observe_piece ty (any _) map k = Keeps-returns map
  Keeps-observe_piece ty (y_map _) map k = Keeps-returns map
  Keeps-observe_piece ty other map k = Keeps-returns map

  Keeps-observe_pieces :
      (ty : Str) (diff : List (Output y × Option (List (Str × Stored y)))) (map : TypeMap)
      → contains_key map ty ≡ true
      → Keeps map (observe_pieces y ty diff map)
  unfolding observe_pieces
  Keeps-observe_pieces ty [] map k = Keeps-returns map
  Keeps-observe_pieces ty ((d, attributes) ∷ diff) map k =
      and_then-Keeps map _ _ (Keeps-observe_piece ty d map k)
        (λ m keep. Keeps-observe_pieces ty diff m (keep ty k))

  Keeps-observe_all :
      (deeper : y.Text → TypeMap → Outcome TypeMap) (children : List y.Text) (map : TypeMap)
      → ((t : y.Text) (m : TypeMap) → Keeps m (deeper t m))
      → Keeps map (observe_all y deeper children map)
  unfolding observe_all
  Keeps-observe_all deeper [] map h = Keeps-returns map
  Keeps-observe_all deeper (child ∷ children) map h =
      and_then-Keeps map _ _ (h child map) (λ m _. Keeps-observe_all deeper children m h)

  Keeps-observe_text_node :
      (left : ℕ) (t : y.Text) (map : TypeMap) → Keeps map (observe_text_node y left t map)
  unfolding observe_text_node
  Keeps-observe_text_node zero t map =
      Keeps-change_entry (node_type y t) (observed (y.text_attributes t)) map _ (Keeps-returns _)
  Keeps-observe_text_node (suc left) t map =
      let ty = node_type y t in
      Keeps-change_entry ty (observed (y.text_attributes t)) map _ (
        and_then-Keeps _ _ _
          (Keeps-observe_pieces ty (y.diff t) _
            (change_entry-inserts ty (observed (y.text_attributes t)) map))
          (λ m _.
            Keeps-observe_all (observe_text_node y left) (text_children y (y.diff t)) m
              (Keeps-observe_text_node left)))

  Keeps-observe_roots :
      (nodes : List (Node y)) (map : TypeMap) → Keeps map (observe_roots y nodes map)
  unfolding observe_roots
  Keeps-observe_roots [] map = Keeps-returns map
  Keeps-observe_roots (text t ∷ nodes) map =
      and_then-Keeps map _ _ (Keeps-observe_text_node max_block_depth t map)
        (λ m _. Keeps-observe_roots nodes m)
  Keeps-observe_roots (element e ∷ nodes) map =
      and_then-Keeps map (returns (observe_element y e map)) (λ m. observe_roots y nodes m)
        (Keeps-observe_element e map) (λ m _. Keeps-observe_roots nodes m)
  Keeps-observe_roots (fragment _ ∷ nodes) map = Keeps-observe_roots nodes map

  -- Collecting the node types never panics, and gives a map exactly for a Lexical document.
  pub lexical-IsCollected :
      (f : y.Fragment) → IsCollected (is_lexical_shaped y f) (collect_node_types y f)
  unfolding collect_node_types
  lexical-IsCollected f = at_shape (is_lexical_shaped y f)
    where
      p : Keeps [] (observe_roots y (y.roots f) [])
      p = Keeps-observe_roots (y.roots f) []

      at_shape :
          (b : Bool)
          → IsCollected b (
              if b
              then and_then (observe_roots y (y.roots f) []) (λ map. returns (some map))
              else returns none)
      at_shape true = rw p.returned refl
      at_shape false = refl
