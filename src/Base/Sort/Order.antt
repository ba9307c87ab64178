-- ===== src/Base/Sort/Order.antt =====
-- The order of the entries before sorting does not matter.
use yrby.Base.Texts.{Str, str_le}
use yrby.Base.Sort.{insert_by_key, sort_by_key}
use mathlib.Core.Path.{◌≡◌, refl, ap}
use mathlib.Core.Logic.{◌≢◌}
use mathlib.Core.Bool.{true, false}
use mathlib.Core.List.{List, [], ◌∷◌}
use native.Mathlib.Omega.{arith}

str_le_antisym : (s t : Str) → str_le s t ≡ true → str_le t s ≡ true → s ≡ t
unfolding str_le
str_le_antisym [] [] h k = refl
str_le_antisym [] (z ∷ t) h k = cc
str_le_antisym (x ∷ s) [] h k = cc
str_le_antisym (x ∷ s) (z ∷ t) h k = ground (arith, str_le_antisym s t)

str_le_total : (s t : Str) → str_le s t ≡ false → str_le t s ≡ true
unfolding str_le
str_le_total [] t h = cc
str_le_total (x ∷ s) [] h = refl
str_le_total (x ∷ s) (z ∷ t) h = ground (arith, str_le_total s t)

str_le_trans : (s t u : Str) → str_le s t ≡ true → str_le t u ≡ true → str_le s u ≡ true
unfolding str_le
str_le_trans [] t u h k = refl
str_le_trans (x ∷ s) [] u h k = cc
str_le_trans (x ∷ s) (z ∷ t) [] h k = cc
str_le_trans (x ∷ s) (z ∷ t) (w ∷ u) h k = ground (arith, str_le_trans s t u)

module _ {V : Type 0} where
  -- Different keys may be inserted in either order.
  insert_swap :
      (k j : Str) (v w : V) (m : List (Str × V))
      → k ≢ j
      → insert_by_key k v (insert_by_key j w m) ≡ insert_by_key j w (insert_by_key k v m)
  unfolding insert_by_key
  insert_swap k j v w [] h = ground (arith, str_le_antisym k j, str_le_total k j, str_le_total j k)
  insert_swap k j v w ((i, u) ∷ m) h = ground (
    arith,
    insert_swap k j v w m h,
    str_le_antisym k j,
    str_le_total k j,
    str_le_total j k,
    str_le_trans k j i,
    str_le_trans j k i,
    str_le_total i k,
    str_le_total i j,
  )

  pub sort_by_key-swap :
      (k j : Str) (v w : V) (m : List (Str × V))
      → k ≢ j
      → sort_by_key ((k, v) ∷ ((j, w) ∷ m)) ≡ sort_by_key ((j, w) ∷ ((k, v) ∷ m))
  unfolding sort_by_key
  sort_by_key-swap k j v w m h = insert_swap k j v w (sort_by_key m) h

  pub sort_by_key-cons :
      (k : Str) (v : V) (m n : List (Str × V))
      → sort_by_key m ≡ sort_by_key n
      → sort_by_key ((k, v) ∷ m) ≡ sort_by_key ((k, v) ∷ n)
  unfolding sort_by_key
  sort_by_key-cons k v m n h = ap (insert_by_key k v) h
