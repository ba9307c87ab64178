-- ===== src/Shared/Units/RoundTrip.antt =====
-- `to_units` and `to_chars` as counts along the widths of a sequence's characters.
use yrby.Base.{
  ℕ, zero, suc, ◌+◌, ◌-◌, ◌≤◌, List, [], ◌∷◌, ◌++◌, length, length-append, All, All-append, ◌≡◌,
  refl, ap, sym, ◌∙◌, arith,
}
use yrby.Yrs.{Out, any, y_map, Any}
use yrby.Shared.Units.{
  char_len, piece_to_units, piece_to_chars, chars_in, units_loop, to_units, chars_loop, to_chars,
}
use yrby.Shared.Units.Widths.{
  total, units_of, chars_of, IsWidth, chars_of-units_of, units_of-zero, chars_of-zero,
  units_of-append, chars_of-append, both, widths_in, chars_to_units-units_of,
  units_to_chars-chars_of, plus_nothing, widths_in-length, widths_in-IsWidth,
}

module _ {F E T M : Type 0} where
  abbrev pub piece_widths : Out F E T M → List ℕ
  piece_widths (any (Any.string s)) = widths_in s
  piece_widths _ = 1 ∷ []

  unfoldable pub widths : List (Out F E T M) → List ℕ
  widths [] = []
  widths (piece ∷ pieces) = piece_widths piece ++ widths pieces

  piece_to_units-units_of :
      (piece : Out F E T M) (left units : ℕ)
      → piece_to_units piece (suc left) units
        ≡ (suc left - length (piece_widths piece), units + units_of (piece_widths piece) (suc left))
  unfolding units_of
  piece_to_units-units_of (any (Any.string s)) left units =
      chars_to_units-units_of s (suc left) units
  piece_to_units-units_of (any Any.null) left units = both (omega arith) (omega arith)
  piece_to_units-units_of (any _) left units = both (omega arith) (omega arith)
  piece_to_units-units_of (y_map _) left units = both (omega arith) (omega arith)
  piece_to_units-units_of _ left units = both (omega arith) (omega arith)

  piece_to_chars-chars_of :
      (piece : Out F E T M) (left chars : ℕ)
      → piece_to_chars piece (suc left) chars
        ≡ (suc left - total (piece_widths piece), chars + chars_of (piece_widths piece) (suc left))
  unfolding chars_of total
  piece_to_chars-chars_of (any (Any.string s)) left chars =
      units_to_chars-chars_of s (suc left) chars
  piece_to_chars-chars_of (any Any.null) left chars = both (omega arith) (omega arith)
  piece_to_chars-chars_of (any _) left chars = both (omega arith) (omega arith)
  piece_to_chars-chars_of (y_map _) left chars = both (omega arith) (omega arith)
  piece_to_chars-chars_of _ left chars = both (omega arith) (omega arith)

  pub units_loop-units_of :
      (pieces : List (Out F E T M)) (left units : ℕ)
      → units_loop pieces left units ≡ units + units_of (widths pieces) left
  unfolding units_loop widths units_of
  units_loop-units_of [] left units = omega arith
  units_loop-units_of (piece ∷ pieces) zero units =
      plus_nothing units (units_of (piece_widths piece ++ widths pieces) 0)
        (units_of-zero (piece_widths piece ++ widths pieces))
  units_loop-units_of (piece ∷ pieces) (suc left) units =
      ap (λ r. units_loop pieces r.0 r.1) (piece_to_units-units_of piece left units)
      ∙ units_loop-units_of pieces (suc left - length (piece_widths piece))
          (units + units_of (piece_widths piece) (suc left))
      ∙ grouped units (units_of (piece_widths piece) (suc left)) _
      ∙ ap (λ n. units + n) (sym (units_of-append (piece_widths piece) (widths pieces) (suc left)))
    where
      grouped : (a b c : ℕ) → (a + b) + c ≡ a + (b + c)
      grouped a b c = omega arith

  chars_loop-chars_of :
      (pieces : List (Out F E T M)) (left chars : ℕ)
      → chars_loop pieces left chars ≡ chars + chars_of (widths pieces) left
  unfolding chars_loop widths chars_of
  chars_loop-chars_of [] left chars = omega arith
  chars_loop-chars_of (piece ∷ pieces) zero chars =
      plus_nothing chars (chars_of (piece_widths piece ++ widths pieces) 0)
        (chars_of-zero (piece_widths piece ++ widths pieces))
  chars_loop-chars_of (piece ∷ pieces) (suc left) chars =
      ap (λ r. chars_loop pieces r.0 r.1) (piece_to_chars-chars_of piece left chars)
      ∙ chars_loop-chars_of pieces (suc left - total (piece_widths piece))
          (chars + chars_of (piece_widths piece) (suc left))
      ∙ grouped chars (chars_of (piece_widths piece) (suc left)) _
      ∙ ap (λ n. chars + n) (sym (chars_of-append (piece_widths piece) (widths pieces) (suc left)))
    where
      grouped : (a b c : ℕ) → (a + b) + c ≡ a + (b + c)
      grouped a b c = omega arith

  piece_widths-facts :
      (piece : Out F E T M)
      → (length (piece_widths piece) ≡ chars_in piece) × All IsWidth (piece_widths piece)
  piece_widths-facts (any (Any.string s)) = (widths_in-length s, widths_in-IsWidth s)
  piece_widths-facts (any Any.null) = (refl, (omega arith, tt))
  piece_widths-facts (any _) = (refl, (omega arith, tt))
  piece_widths-facts (y_map _) = (refl, (omega arith, tt))
  piece_widths-facts _ = (refl, (omega arith, tt))

  pub widths-facts :
      (pieces : List (Out F E T M))
      → (length (widths pieces) ≡ char_len pieces) × All IsWidth (widths pieces)
  unfolding widths char_len
  widths-facts [] = (refl, tt)
  widths-facts (piece ∷ pieces) =
      let (el, hl) = piece_widths-facts piece in
      let (er, hr) = widths-facts pieces in
      (
        length-append (piece_widths piece) (widths pieces) ∙ (λ i. el i + er i),
        All-append IsWidth (piece_widths piece) (widths pieces) hl hr,
      )

  -- A character's index survives the way to document units and back, for every index up to the
  -- end, whatever the sequence holds.
  pub to_chars-to_units :
      (pieces : List (Out F E T M)) (chars : ℕ)
      → chars ≤ char_len pieces
      → to_chars pieces (to_units pieces chars) ≡ chars
  unfolding to_units to_chars
  to_chars-to_units pieces chars h =
      let (e, hw) = widths-facts pieces in
      ap (λ u. chars_loop pieces u 0) (units_loop-units_of pieces chars 0 ∙ bare _)
      ∙ chars_loop-chars_of pieces (units_of (widths pieces) chars) 0
      ∙ bare _
      ∙ chars_of-units_of (widths pieces) chars hw (omega (arith, e))
    where
      bare : (n : ℕ) → 0 + n ≡ n
      bare n = omega arith
