-- ===== src/ProseMirror/Document/Builtin.antt =====
-- The types that `is_builtin` names are those that `open_block` has an arm for.
use yrby.Base.{
  ◌≡◌, ◌≢◌, ◌↔◌, true, List, [], ◌∷◌, map, Str, str_eq, str_eq_refl, str_eq_sound, is_one_of, get,
  All, arith,
}
use yrby.ProseMirror.Arms.{Arm, unknown, arms, or_unknown, arm}
use yrby.ProseMirror.Document.{is_builtin}

str_eq_comm : (s t : Str) → str_eq s t ≡ str_eq t s
str_eq_comm s t = ground (arith, str_eq_sound s t, str_eq_sound t s, str_eq_refl s)

named_arm :
    (table : List (Str × Arm)) (ty : Str)
    → All (λ a. a.1 ≢ unknown) table
    → (is_one_of (map (λ a. a.0) table) ty ≡ true) ↔ (or_unknown (get table ty) ≢ unknown)
unfolding get is_one_of
named_arm [] ty h = ground arith
named_arm ((name, a) ∷ table) ty (h, hs) =
    ground (arith, str_eq_comm name ty, named_arm table ty hs)

-- A type is built in exactly where rendering a block has an arm of its own for it.
pub is_builtin-arm : (ty : Str) → (is_builtin ty ≡ true) ↔ (arm ty ≢ unknown)
unfolding is_builtin arm
is_builtin-arm ty = named_arm arms ty (ground arith)
