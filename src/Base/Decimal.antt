-- ===== src/Base/Decimal.antt =====
-- `to_string` of integers: decimal digits, with a sign in front of a negative number.
use yrby.Base.{
  ℕ, zero, suc, ◌+◌, ◌-◌, ◌*◌, ◌/◌, ◌%◌, ◌<◌, ◌≤◌, ltb, if◌then◌else◌, [], ◌∷◌, ◌++◌, Str, ◌≡◌,
  refl, arith, All, All-append, inl, inr, Bool-cases,
}
use yrby.Base.Int.{ℤ, pos, negsuc}

-- `fuel` bounds the number of digits: more than the number is enough.
show_digits : ℕ → ℕ → Str
show_digits zero n = []
show_digits (suc fuel) n =
    let front = show_digits fuel (n / 10) in
    if ltb n 10 then (n + 48) ∷ [] else front ++ (n % 10 + 48) ∷ []

unfoldable pub show_ℕ : ℕ → Str
unfolding show_digits
show_ℕ n = show_digits (suc n) n

unfoldable pub show_ℤ : ℤ → Str
unfolding show_ℕ
show_ℤ (pos n) = show_ℕ n
show_ℤ (negsuc n) = b'-' ∷ show_ℕ (n + 1)

-- A digit or a minus sign.
abbrev pub IsNumeral : ℕ → Type 0
IsNumeral c = (45 ≤ c) × (c < 58)

show_digits-IsNumeral : (fuel n : ℕ) → All IsNumeral (show_digits fuel n)
unfolding show_digits
show_digits-IsNumeral zero n = tt
show_digits-IsNumeral (suc fuel) n = elim (Bool-cases (ltb n 10)) [
  | inl h ↦ rw h (ground arith)
  | inr h ↦ rw h (
      All-append IsNumeral (show_digits fuel (n / 10)) ((n % 10 + 48) ∷ [])
        (show_digits-IsNumeral fuel (n / 10)) (ground arith))
]

pub show_ℤ-IsNumeral : (n : ℤ) → All IsNumeral (show_ℤ n)
unfolding show_ℤ
show_ℤ-IsNumeral (pos n) = show_digits-IsNumeral (suc n) n
show_ℤ-IsNumeral (negsuc n) =
    ((omega arith, omega arith), show_digits-IsNumeral (suc (n + 1)) (n + 1))

-- The number that decimal digits stand for.
unfoldable pub read_digits : ℕ → Str → ℕ
read_digits acc [] = acc
read_digits acc (c ∷ s) = read_digits (acc * 10 + (c - 48)) s

read_digits-append :
    (acc : ℕ) (s t : Str) → read_digits acc (s ++ t) ≡ read_digits (read_digits acc s) t
unfolding read_digits
read_digits-append acc [] t = refl
read_digits-append acc (c ∷ s) t = read_digits-append (acc * 10 + (c - 48)) s t

read-show_digits : (fuel n : ℕ) → n < fuel → read_digits 0 (show_digits fuel n) ≡ n
unfolding show_digits read_digits
read-show_digits zero n h = elim h [ ]
read-show_digits (suc fuel) n h = elim (Bool-cases (ltb n 10)) [
  | inl e ↦ rw e (omega arith)
  | inr e ↦ rw (e, read_digits-append, read-show_digits fuel (n / 10) (ground arith)) (ground arith)
]

-- The decimal digits of a number stand for it.
pub read_digits-show_ℕ : (n : ℕ) → read_digits 0 (show_ℕ n) ≡ n
unfolding show_ℕ
read_digits-show_ℕ n = read-show_digits (suc n) n (omega arith)
