-- ===== src/Base/Texts.antt =====
-- A Rust string as the list of its characters' code points, which is how the source walks it.
use Prim.Native.Nat.{ℕ}
use Prim.Native.Char.{code}
use Prim.Native.String.{String}
use mathlib.Core.Path.{◌≡◌, refl}
use mathlib.Core.Bool.{Bool, true, false, ◌&&◌}
use mathlib.Core.Option.{Option, none, some}
use mathlib.Core.List.{List, [], ◌∷◌}
use native.Mathlib.Omega.{arith}
use yrby.Base.Tests.{ltb, ◌==◌, if◌then◌else◌}
use yrby.Base.Lists.{any_of}

abbrev pub Str : Type 0
Str = List ℕ

abbrev pub codes : String → Str
codes String.[] = []
codes (String.◌∷◌ c s) = code c ∷ codes s

unfoldable pub str_eq : Str → Str → Bool
str_eq [] [] = true
str_eq [] (y ∷ ys) = false
str_eq (x ∷ xs) [] = false
str_eq (x ∷ xs) (y ∷ ys) = x == y && str_eq xs ys

-- The order of strings, by their characters.
unfoldable pub str_le : Str → Str → Bool
str_le [] t = true
str_le (x ∷ s) [] = false
str_le (x ∷ s) (z ∷ t) = let rest = str_le s t in if x == z then rest else ltb x z

pub str_eq_sound : (s t : Str) → str_eq s t ≡ true → s ≡ t
unfolding str_eq
str_eq_sound [] [] h = refl
str_eq_sound [] (y ∷ ys) h = cc
str_eq_sound (x ∷ xs) [] h = cc
str_eq_sound (x ∷ xs) (y ∷ ys) h = ground (arith, str_eq_sound xs ys)

pub str_eq_refl : (s : Str) → str_eq s s ≡ true
unfolding str_eq
str_eq_refl [] = refl
str_eq_refl (x ∷ xs) = ground (arith, str_eq_refl xs)

unfoldable pub is_one_of : List Str → Str → Bool
is_one_of names s = any_of (str_eq s) names

-- A map with texts for keys: the first entry for a key counts.
module _ {ℓ} {V : Type ℓ} where
  unfoldable pub get : List (Str × V) → Str → Option V
  get [] k = none
  get ((j, v) ∷ m) k = if str_eq j k then some v else get m k

  unfoldable pub contains_key : List (Str × V) → Str → Bool
  contains_key [] k = false
  contains_key ((j, v) ∷ m) k = if str_eq j k then true else contains_key m k

  unfoldable pub insert : List (Str × V) → Str → V → List (Str × V)
  insert [] k v = (k, v) ∷ []
  insert ((j, w) ∷ m) k v = if str_eq j k then (j, v) ∷ m else (j, w) ∷ insert m k v
