-- ===== src/Lexical/Nodes/Shaped.antt =====
-- When a document is taken for a Lexical one.
use yrby.Base.{◌≡◌, refl, if◌then◌else◌, Bool, true, false, ◌||◌, List, [], ◌∷◌, any_of}
use yrby.Yrs.{Yrs, Node}
use yrby.Lexical.Nodes.{is_typed, typed_loop, is_lexical_shaped}

abbrev pub is_nil : {A : Type 0} → List A → Bool
is_nil [] = true
is_nil (x ∷ xs) = false

module _ (y : Yrs) where
  later : (nodes : List (Node y)) → typed_loop y true nodes ≡ any_of (is_typed y) nodes
  unfolding typed_loop
  later [] = refl
  later (node ∷ nodes) = at_typed (is_typed y node) (later nodes)
    where
      at_typed : {a b : Bool} (t : Bool) → a ≡ b → (if t then true else a) ≡ (t || b)
      at_typed true e = refl
      at_typed false e = e

  shaped_loop :
      (nodes : List (Node y))
      → typed_loop y false nodes ≡ (is_nil nodes || any_of (is_typed y) nodes)
  unfolding typed_loop
  shaped_loop [] = refl
  shaped_loop (node ∷ nodes) = later (node ∷ nodes)

  -- A root is Lexical-shaped exactly where it is empty or at least one child carries `__type`.
  pub is_lexical_shaped-any_of :
      (f : y.Fragment)
      → is_lexical_shaped y f ≡ (is_nil (y.roots f) || any_of (is_typed y) (y.roots f))
  unfolding is_lexical_shaped
  is_lexical_shaped-any_of f = shaped_loop (y.roots f)
