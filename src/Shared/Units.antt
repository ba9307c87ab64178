-- ===== src/Shared/Units.antt =====
-- Characters and UTF-16 units, of ext/yrby/src/shared.rs: `char_len`, `to_units`, `to_chars`,
-- `end_or_units` and the embedded `XmlText`s. A sequence is its `pieces`. A count of units is at
-- most the length that yrs stores as a `u32`, so that no count wraps.
pub mod Widths
pub mod RoundTrip
pub mod Embedded
pub mod Found
use yrby.Base.{
  ℕ, zero, suc, ◌+◌, ◌-◌, ◌==◌, ltb, if◌then◌else◌, Bool, true, false, Option, none, some, List, [],
  ◌∷◌, Str, length,
}
use yrby.Base.Int.{ℤ, pos, negsuc}
use yrby.Yrs.{Out, any, y_map, y_xml_element, y_xml_text, other, Any}
use yrby.Shared.Index.{insert_index}

-- `char::len_utf16`
unfoldable pub len_utf16 : ℕ → ℕ
len_utf16 c = if ltb c 65536 then 1 else 2

-- The loop over a string: what is left, and the units so far.
unfoldable pub chars_to_units : Str → ℕ → ℕ → ℕ × ℕ
unfolding len_utf16
chars_to_units [] left units = (left, units)
chars_to_units (c ∷ s) zero units = (zero, units)
chars_to_units (c ∷ s) (suc left) units = chars_to_units s left (units + len_utf16 c)

-- The loop over a string: what is left, and the characters so far.
unfoldable pub units_to_chars : Str → ℕ → ℕ → ℕ × ℕ
unfolding len_utf16
units_to_chars [] left chars = (left, chars)
units_to_chars (c ∷ s) zero chars = (zero, chars)
units_to_chars (c ∷ s) (suc left) chars = units_to_chars s (suc left - len_utf16 c) (chars + 1)

-- `s.encode_utf16().count()`
unfoldable pub utf16_count : Str → ℕ
unfolding len_utf16
utf16_count [] = 0
utf16_count (c ∷ s) = len_utf16 c + utf16_count s

module _ {F E T M : Type 0} where
  abbrev chars_in : Out F E T M → ℕ
  chars_in (any (Any.string s)) = length s
  chars_in _ = 1

  unfoldable pub char_len : List (Out F E T M) → ℕ
  char_len [] = 0
  char_len (piece ∷ pieces) = chars_in piece + char_len pieces

  abbrev piece_to_units : Out F E T M → ℕ → ℕ → ℕ × ℕ
  piece_to_units (any (Any.string s)) left units = chars_to_units s left units
  piece_to_units _ left units = (left - 1, units + 1)

  pub units_loop : List (Out F E T M) → ℕ → ℕ → ℕ
  units_loop [] left units = units
  units_loop (piece ∷ pieces) zero units = units
  units_loop (piece ∷ pieces) (suc left) units =
      let (left', units') = piece_to_units piece (suc left) units in units_loop pieces left' units'

  unfoldable pub to_units : List (Out F E T M) → ℕ → ℕ
  unfolding units_loop
  to_units pieces chars = units_loop pieces chars 0

  abbrev piece_to_chars : Out F E T M → ℕ → ℕ → ℕ × ℕ
  piece_to_chars (any (Any.string s)) left chars = units_to_chars s left chars
  piece_to_chars _ left chars = (left - 1, chars + 1)

  unfoldable pub chars_loop : List (Out F E T M) → ℕ → ℕ → ℕ
  chars_loop [] left chars = chars
  chars_loop (piece ∷ pieces) zero chars = chars
  chars_loop (piece ∷ pieces) (suc left) chars =
      let (left', chars') = piece_to_chars piece (suc left) chars in chars_loop pieces left' chars'

  unfoldable pub to_chars : List (Out F E T M) → ℕ → ℕ
  unfolding chars_loop
  to_chars pieces units = chars_loop pieces units 0

  -- `len` is `seq.len(txn)`, the length in units that yrs keeps.
  unfoldable pub end_or_units : List (Out F E T M) → ℕ → ℤ → ℕ
  unfolding to_units char_len
  end_or_units pieces len (negsuc zero) = len
  end_or_units pieces len (negsuc (suc n)) =
      to_units pieces (insert_index (negsuc (suc n)) (char_len pieces))
  end_or_units pieces len (pos n) = to_units pieces (insert_index (pos n) (char_len pieces))

  unfoldable pub embedded_xml_texts : List (Out F E T M) → List T
  embedded_xml_texts [] = []
  embedded_xml_texts (y_xml_text x ∷ pieces) = x ∷ embedded_xml_texts pieces
  embedded_xml_texts (_ ∷ pieces) = embedded_xml_texts pieces

  unfoldable pub index_loop : List (Out F E T M) → ℕ → ℕ → ℕ → Option ℕ
  unfolding utf16_count
  index_loop [] n seen index = none
  index_loop (y_xml_text x ∷ pieces) n seen index =
      let rest = index_loop pieces n (seen + 1) (index + 1) in
      if seen == n then some index else rest
  index_loop (any (Any.string s) ∷ pieces) n seen index =
      index_loop pieces n seen (index + utf16_count s)
  index_loop (_ ∷ pieces) n seen index = index_loop pieces n seen (index + 1)

  unfoldable pub embedded_xml_text_index : List (Out F E T M) → ℕ → Option ℕ
  unfolding index_loop
  embedded_xml_text_index pieces n = index_loop pieces n 0 0

  unfoldable pub ends_with_xml_text : List (Out F E T M) → Bool
  ends_with_xml_text [] = false
  ends_with_xml_text (y_xml_text x ∷ []) = true
  ends_with_xml_text (_ ∷ []) = false
  ends_with_xml_text (piece ∷ (next ∷ pieces)) = ends_with_xml_text (next ∷ pieces)
