-- ===== src/ProseMirror/Css/Hex.antt =====
-- What `hex_to_rgb` makes of six characters.
use yrby.Base.{ℕ, ◌+◌, ◌*◌, ◌<◌, ◌≤◌, ◌≡◌, refl, ltb, true, some, [], ◌∷◌, arith}
use yrby.ProseMirror.Css.{hex_digit, hex_digits, from_str_radix, rgb_text, hex_channels, hex_to_rgb}

hex_digit_bounds : (c d : ℕ) → hex_digit c ≡ some d → (d < 16) × (48 ≤ c) × (c < 128)
unfolding hex_digit
hex_digit_bounds c d h = ground arith

-- Two hexadecimal digits are a byte.
pair_value :
    (a b x z : ℕ)
    → hex_digit a ≡ some x
    → hex_digit b ≡ some z
    → from_str_radix (a ∷ b ∷ []) ≡ some (x * 16 + z)
unfolding from_str_radix hex_digits
pair_value a b x z ha hb = ground (arith, hex_digit_bounds a x ha, hex_digit_bounds b z hb)

-- A plus sign in front of one digit is accepted, as `from_str_radix` accepts a sign.
plus_value : (b z : ℕ) → hex_digit b ≡ some z → from_str_radix (b'+' ∷ b ∷ []) ≡ some z
unfolding from_str_radix hex_digits
plus_value b z hb = ground (arith, hex_digit_bounds b z hb)

hex_channels-of :
    (a a' b b' c c' : ℕ) (r g u : ℕ)
    → from_str_radix (a ∷ a' ∷ []) ≡ some r
    → from_str_radix (b ∷ b' ∷ []) ≡ some g
    → from_str_radix (c ∷ c' ∷ []) ≡ some u
    → hex_channels (a ∷ a' ∷ b ∷ b' ∷ c ∷ c' ∷ []) ≡ some (rgb_text r g u)
unfolding hex_channels
hex_channels-of a a' b b' c c' r g u hr hg hu = rw (hr, hg, hu) refl

ascii : (c d : ℕ) → hex_digit c ≡ some d → ltb c 128 ≡ true
ascii c d h = ground (arith, hex_digit_bounds c d h)

-- Six hexadecimal digits behind `#` give the three bytes that they write.
pub hex_to_rgb-digits :
    (a a' b b' c c' x x' z z' w w' : ℕ)
    → hex_digit a ≡ some x
    → hex_digit a' ≡ some x'
    → hex_digit b ≡ some z
    → hex_digit b' ≡ some z'
    → hex_digit c ≡ some w
    → hex_digit c' ≡ some w'
    → hex_to_rgb (b'#' ∷ a ∷ a' ∷ b ∷ b' ∷ c ∷ c' ∷ [])
      ≡ some (rgb_text (x * 16 + x') (z * 16 + z') (w * 16 + w'))
unfolding hex_to_rgb
hex_to_rgb-digits a a' b b' c c' x x' z z' w w' h₁ h₂ h₃ h₄ h₅ h₆ =
    rw (ascii a x h₁, ascii a' x' h₂, ascii b z h₃, ascii b' z' h₄, ascii c w h₅, ascii c' w' h₆)
      (hex_channels-of a a' b b' c c' _ _ _ (pair_value a a' x x' h₁ h₂)
        (pair_value b b' z z' h₃ h₄) (pair_value c c' w w' h₅ h₆))

-- `#+a+b+c`, which is neither `#rgb` nor `#rrggbb`, is converted too.
pub hex_to_rgb-plus :
    (a b c x z w : ℕ)
    → hex_digit a ≡ some x
    → hex_digit b ≡ some z
    → hex_digit c ≡ some w
    → hex_to_rgb (b'#' ∷ b'+' ∷ a ∷ b'+' ∷ b ∷ b'+' ∷ c ∷ []) ≡ some (rgb_text x z w)
unfolding hex_to_rgb
hex_to_rgb-plus a b c x z w ha hb hc =
    rw (ascii a x ha, ascii b z hb, ascii c w hc)
      (hex_channels-of b'+' a b'+' b b'+' c x z w (plus_value a x ha) (plus_value b z hb)
        (plus_value c w hc))
