-- ===== src/Shared/Units/Widths.antt =====
-- A sequence as the widths of its characters, in units, and the two ways to count along them.
use yrby.Base.{
  ℕ, zero, suc, ◌+◌, ◌-◌, ◌≤◌, List, [], ◌∷◌, ◌++◌, map, Str, length, All, ◌≡◌, refl, ap, sym, ◌∙◌,
  arith,
}
use yrby.Shared.Units.{len_utf16, chars_to_units, units_to_chars}

unfoldable pub total : List ℕ → ℕ
total [] = 0
total (w ∷ ws) = w + total ws

-- The units of the first `n` characters.
unfoldable pub units_of : List ℕ → ℕ → ℕ
units_of [] n = 0
units_of (w ∷ ws) zero = 0
units_of (w ∷ ws) (suc n) = w + units_of ws n

-- The characters that `u` units reach into.
unfoldable pub chars_of : List ℕ → ℕ → ℕ
chars_of [] u = 0
chars_of (w ∷ ws) zero = 0
chars_of (w ∷ ws) (suc u) = suc (chars_of ws (suc u - w))

abbrev pub IsWidth : ℕ → Type 0
IsWidth w = 1 ≤ w

pub chars_of-units_of :
    (ws : List ℕ) (n : ℕ) → All IsWidth ws → n ≤ length ws → chars_of ws (units_of ws n) ≡ n
unfolding chars_of units_of
chars_of-units_of [] n h k = omega arith
chars_of-units_of (w ∷ ws) zero h k = refl
chars_of-units_of (zero ∷ ws) (suc n) (h, hs) k = absurd (omega arith)
chars_of-units_of (suc w ∷ ws) (suc n) (h, hs) k =
    reached (units_of ws n) ∙ ap suc (chars_of-units_of ws n hs (omega arith))
  where
    cancel : (a b : ℕ) → suc (a + b) - suc a ≡ b
    cancel a b = omega arith

    reached : (m : ℕ) → chars_of (suc w ∷ ws) (suc w + m) ≡ suc (chars_of ws m)
    reached m =
        ap (chars_of (suc w ∷ ws)) (forward w m) ∙ ap (λ k. suc (chars_of ws k)) (cancel w m)
      where
        forward : (a b : ℕ) → suc a + b ≡ suc (a + b)
        forward a b = omega arith

pub units_of-bound : (ws : List ℕ) (n : ℕ) → units_of ws n ≤ total ws
unfolding units_of total
units_of-bound [] n = omega arith
units_of-bound (w ∷ ws) zero = omega arith
units_of-bound (w ∷ ws) (suc n) = omega (arith, units_of-bound ws n)

pub units_of-zero : (ws : List ℕ) → units_of ws 0 ≡ 0
unfolding units_of
units_of-zero [] = refl
units_of-zero (w ∷ ws) = refl

pub chars_of-zero : (ws : List ℕ) → chars_of ws 0 ≡ 0
unfolding chars_of
chars_of-zero [] = refl
chars_of-zero (w ∷ ws) = refl

pub nothing_left : (f : ℕ → ℕ) (n : ℕ) → f 0 ≡ 0 → 0 ≡ 0 + f (0 - n)
nothing_left f n h = sym (ap (λ k. 0 + k) (ap f none_left ∙ h))
  where
    none_left : 0 - n ≡ 0
    none_left = omega arith

pub at_front : (f : ℕ → ℕ) (u : ℕ) → f u ≡ 0 + f (u - 0)
at_front f u = ap f here ∙ unit (f (u - 0))
  where
    here : u ≡ u - 0
    here = omega arith

    unit : (n : ℕ) → n ≡ 0 + n
    unit n = omega arith

pub units_of-append :
    (ws vs : List ℕ) (n : ℕ) → units_of (ws ++ vs) n ≡ units_of ws n + units_of vs (n - length ws)
unfolding units_of
units_of-append [] vs n = at_front (units_of vs) n
units_of-append (w ∷ ws) vs zero = nothing_left (units_of vs) (suc (length ws)) (units_of-zero vs)
units_of-append (w ∷ ws) vs (suc n) =
    ap (λ k. w + k) (units_of-append ws vs n) ∙ carried (units_of ws n) (length ws)
  where
    apart : (m : ℕ) → n - m ≡ suc n - suc m
    apart m = omega arith

    grouped : (a b : ℕ) → w + (a + b) ≡ (w + a) + b
    grouped a b = omega arith

    carried : (a m : ℕ) → w + (a + units_of vs (n - m)) ≡ (w + a) + units_of vs (suc n - suc m)
    carried a m =
        ap (λ k. w + (a + units_of vs k)) (apart m) ∙ grouped a (units_of vs (suc n - suc m))

pub chars_of-append :
    (ws vs : List ℕ) (u : ℕ) → chars_of (ws ++ vs) u ≡ chars_of ws u + chars_of vs (u - total ws)
unfolding chars_of total
chars_of-append [] vs u = at_front (chars_of vs) u
chars_of-append (w ∷ ws) vs zero = nothing_left (chars_of vs) (w + total ws) (chars_of-zero vs)
chars_of-append (w ∷ ws) vs (suc u) =
    ap suc (chars_of-append ws vs (suc u - w)) ∙ carried (chars_of ws (suc u - w)) (total ws)
  where
    apart : (t : ℕ) → suc u - w - t ≡ suc u - (w + t)
    apart t = omega arith

    grouped : (a b : ℕ) → suc (a + b) ≡ suc a + b
    grouped a b = omega arith

    carried :
        (a t : ℕ) → suc (a + chars_of vs (suc u - w - t)) ≡ suc a + chars_of vs (suc u - (w + t))
    carried a t =
        ap (λ k. suc (a + chars_of vs k)) (apart t) ∙ grouped a (chars_of vs (suc u - (w + t)))

pub both : {a b c d : ℕ} → a ≡ b → c ≡ d → ◌≡◌ {A = ℕ × ℕ} (a, c) (b, d)
both p q = λ i. (p i, q i)

abbrev pub widths_in : Str → List ℕ
widths_in s = map len_utf16 s

pub chars_to_units-units_of :
    (s : Str) (left units : ℕ)
    → chars_to_units s left units
      ≡ (left - length (widths_in s), units + units_of (widths_in s) left)
unfolding chars_to_units units_of
chars_to_units-units_of [] left units = both (omega arith) (omega arith)
chars_to_units-units_of (c ∷ s) zero units = both (omega arith) (omega arith)
chars_to_units-units_of (c ∷ s) (suc left) units =
    chars_to_units-units_of s left (units + len_utf16 c) ∙ both (omega arith) (omega arith)

pub units_to_chars-chars_of :
    (s : Str) (left chars : ℕ)
    → units_to_chars s left chars
      ≡ (left - total (widths_in s), chars + chars_of (widths_in s) left)
unfolding units_to_chars chars_of total
units_to_chars-chars_of [] left chars = both (omega arith) (omega arith)
units_to_chars-chars_of (c ∷ s) zero chars = both (omega arith) (omega arith)
units_to_chars-chars_of (c ∷ s) (suc left) chars =
    units_to_chars-chars_of s (suc left - len_utf16 c) (chars + 1)
    ∙ both (omega arith) (omega arith)

pub plus_nothing : (n m : ℕ) → m ≡ 0 → n ≡ n + m
plus_nothing n m h = omega arith

pub widths_in-length : (s : Str) → length (widths_in s) ≡ length s
widths_in-length [] = refl
widths_in-length (c ∷ s) = ap suc (widths_in-length s)

pub widths_in-IsWidth : (s : Str) → All IsWidth (widths_in s)
unfolding len_utf16
widths_in-IsWidth [] = tt
widths_in-IsWidth (c ∷ s) = (ground arith, widths_in-IsWidth s)
