-- ===== src/Base/Sort.antt =====
-- Sorting the entries of a map by their keys.
pub mod Order
use yrby.Base.Tests.{if◌then◌else◌}
use yrby.Base.Texts.{Str, str_le}
use mathlib.Core.Bool.{Bool, true, false}
use mathlib.Core.List.{List, [], ◌∷◌}

-- The order of strings: by bytes, which is the order by code points.
module _ {V : Type 0} where
  pub insert_by_key : Str → V → List (Str × V) → List (Str × V)
  insert_by_key k v [] = (k, v) ∷ []
  insert_by_key k v ((j, w) ∷ m) =
      let rest = insert_by_key k v m in if str_le k j then (k, v) ∷ ((j, w) ∷ m) else (j, w) ∷ rest

  -- `sort_by(|a, b| a.0.cmp(b.0))`
  unfoldable pub sort_by_key : List (Str × V) → List (Str × V)
  unfolding insert_by_key
  sort_by_key [] = []
  sort_by_key ((k, v) ∷ m) = insert_by_key k v (sort_by_key m)
