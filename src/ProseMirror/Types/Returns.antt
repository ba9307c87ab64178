-- ===== src/ProseMirror/Types/Returns.antt =====
-- Collecting the node types never panics: an entry that is inserted stays.
use yrby.Base.{
  ℕ, zero, suc, ◌≡◌, refl, if◌then◌else◌, Bool, true, false, none, some, List, [], ◌∷◌, Str,
  contains_key,
}
use yrby.Yrs.{Yrs, element, fragment, text, Node}
use yrby.ProseMirror.Inline.{max_depth}
use yrby.HtmlCore.Outcome.{Outcome, returns, and_then}
use yrby.HtmlCore.TypeMap.Changes.{change_entry, with_text, with_child}
use yrby.HtmlCore.TypeMap.Keeps.{
  Keeps, change_entry-inserts, change_inserted-Keeps, and_then-Keeps, IsCollected,
  Keeps-change_entry,
}
use yrby.ProseMirror.Document.{is_prosemirror_shaped}
use yrby.HtmlCore.TypeMap.{TypeMap}
use yrby.ProseMirror.Types.{counted, observe_children, observe, observe_roots, collect_node_types}

module _ (y : Yrs) where
  observe_children-Keeps :
      (deeper : y.Element → TypeMap → Outcome TypeMap) (ty : Str) (nodes : List (Node y))
      (map : TypeMap)
      → ((e : y.Element) (m : TypeMap) → Keeps m (deeper e m))
      → contains_key map ty ≡ true
      → Keeps map (observe_children y deeper ty nodes map)
  unfolding observe_children
  observe_children-Keeps deeper ty [] map h k = record {
    result = map;
    returned = refl;
    kept = λ key q. q;
  }
  observe_children-Keeps deeper ty (text _ ∷ nodes) map h k =
      and_then-Keeps map _ _ (change_inserted-Keeps ty with_text map k)
        (λ m keep. observe_children-Keeps deeper ty nodes m h (keep ty k))
  observe_children-Keeps deeper ty (element el ∷ nodes) map h k =
      and_then-Keeps map _ _ (change_inserted-Keeps ty (with_child (y.tag el)) map k) (λ m keep.
        and_then-Keeps m _ _ (h el m)
          (λ n keep'. observe_children-Keeps deeper ty nodes n h (keep' ty (keep ty k))))
  observe_children-Keeps deeper ty (fragment _ ∷ nodes) map h k =
      observe_children-Keeps deeper ty nodes map h k

  observe-Keeps : (left : ℕ) (e : y.Element) (map : TypeMap) → Keeps map (observe y left e map)
  unfolding observe
  observe-Keeps zero e map = Keeps-change_entry (y.tag e) (counted (y.attributes e)) map _ (record {
    result = change_entry (y.tag e) (counted (y.attributes e)) map;
    returned = refl;
    kept = λ key h. h;
  })
  observe-Keeps (suc left) e map = Keeps-change_entry (y.tag e) (counted (y.attributes e)) map _ (
      observe_children-Keeps (observe y left) (y.tag e) (y.children e) _ (observe-Keeps left)
        (change_entry-inserts (y.tag e) (counted (y.attributes e)) map))

  observe_roots-Keeps :
      (nodes : List (Node y)) (map : TypeMap) → Keeps map (observe_roots y nodes map)
  unfolding observe_roots
  observe_roots-Keeps [] map = record { result = map; returned = refl; kept = λ key h. h }
  observe_roots-Keeps (element e ∷ nodes) map =
      and_then-Keeps map _ _ (observe-Keeps max_depth e map) (λ m _. observe_roots-Keeps nodes m)
  observe_roots-Keeps (text _ ∷ nodes) map = observe_roots-Keeps nodes map
  observe_roots-Keeps (fragment _ ∷ nodes) map = observe_roots-Keeps nodes map

  -- Collecting the node types never panics, and gives a map exactly for a ProseMirror document.
  pub collect_node_types-IsCollected :
      (f : y.Fragment) → IsCollected (is_prosemirror_shaped y f) (collect_node_types y f)
  unfolding collect_node_types
  collect_node_types-IsCollected f = at_shape (is_prosemirror_shaped y f)
    where
      p : Keeps [] (observe_roots y (y.roots f) [])
      p = observe_roots-Keeps (y.roots f) []

      at_shape :
          (b : Bool)
          → IsCollected b (
              if b
              then and_then (observe_roots y (y.roots f) []) (λ map. returns (some map))
              else returns none)
      at_shape true = rw p.returned refl
      at_shape false = refl
