-- ===== src/ProseMirror/Types.antt =====
-- `collect_node_types` and `observe`: what each node type of a document looks like.
pub mod Returns
use yrby.Base.{
  ℕ, zero, suc, ◌+◌, if◌then◌else◌, Bool, true, false, Option, none, some, List, [], ◌∷◌, Str,
  str_eq,
}
use yrby.Yrs.{Yrs, XmlOut, element, fragment, text, Output, Node}
use yrby.HtmlCore.TypeMap.{TypeInfo, TypeMap}
use yrby.HtmlCore.Outcome.{Outcome, panics, returns, and_then}
use yrby.HtmlCore.TypeMap.Changes.{set_insert, change_entry, change_inserted, with_text, with_child}
use yrby.ProseMirror.Inline.{max_depth}
use yrby.ProseMirror.Document.{is_prosemirror_shaped}

abbrev insert_all : {A : Type 0} → List (Str × A) → List Str → List Str
insert_all [] set = set
insert_all ((key, _) ∷ attributes) set = insert_all attributes (set_insert key set)

abbrev pub counted : {A : Type 0} → List (Str × A) → TypeInfo → TypeInfo
counted attributes info = record {
  count = info.count + 1;
  attrs = insert_all attributes info.attrs;
  children = info.children;
  has_text = info.has_text;
}

module _ (y : Yrs) where
  -- The loop over the children of a node of type `ty`.
  observe_children :
      (y.Element → TypeMap → Outcome TypeMap) → Str → List (Node y) → TypeMap → Outcome TypeMap
  unfolding change_inserted
  observe_children deeper ty [] map = returns map
  observe_children deeper ty (text _ ∷ nodes) map =
      and_then (change_inserted ty with_text map) (λ m. observe_children deeper ty nodes m)
  observe_children deeper ty (element el ∷ nodes) map =
      and_then (change_inserted ty (with_child (y.tag el)) map)
        (λ m. and_then (deeper el m) (λ n. observe_children deeper ty nodes n))
  observe_children deeper ty (fragment _ ∷ nodes) map = observe_children deeper ty nodes map

  -- `left` is `MAX_DEPTH - depth`.
  unfoldable pub observe : ℕ → y.Element → TypeMap → Outcome TypeMap
  unfolding observe_children change_entry
  observe zero e map = returns (change_entry (y.tag e) (counted (y.attributes e)) map)
  observe (suc left) e map =
      observe_children (observe left) (y.tag e) (y.children e)
        (change_entry (y.tag e) (counted (y.attributes e)) map)

  observe_roots : List (Node y) → TypeMap → Outcome TypeMap
  unfolding observe
  observe_roots [] map = returns map
  observe_roots (element e ∷ nodes) map =
      and_then (observe max_depth e map) (λ m. observe_roots nodes m)
  observe_roots (_ ∷ nodes) map = observe_roots nodes map

  unfoldable pub collect_node_types : y.Fragment → Outcome (Option TypeMap)
  unfolding observe_roots
  collect_node_types f =
      if is_prosemirror_shaped y f
      then and_then (observe_roots (y.roots f) []) (λ map. returns (some map))
      else returns none
