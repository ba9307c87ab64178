-- ===== src/Tests/Shared.antt =====
-- The theorems on indexes at concrete inputs, and runs of the model.
use yrby.Base.{ℕ, ◌≡◌, refl, some, List, [], ◌∷◌, arith}
use yrby.Base.Int.{pos, negsuc}
use yrby.Yrs.{Any, Out, any, y_map, y_xml_text}
use yrby.Shared.Index.{delete_span}
use yrby.Shared.Index.Ruby.{IsSpan, delete_span-IsSpan}
use yrby.Shared.Units.{char_len, chars_to_units, to_units, to_chars}
use yrby.Shared.Units.RoundTrip.{to_chars-to_units}

-- A line with a character of two units, a marker and a nested text.
abbrev line : List (Out (Unit {0}) ℕ ℕ ℕ)
line = any (Any.string (97 ∷ 128512 ∷ 98 ∷ [])) ∷ y_map 0 ∷ y_xml_text 1 ∷ []

delete_span-IsSpan_example : IsSpan 5 (delete_span (negsuc 1) (pos 9) 5)
delete_span-IsSpan_example = delete_span-IsSpan (negsuc 1) (pos 9) 5 (omega arith)

to_chars-to_units_example : to_chars line (to_units line 4) ≡ 4
unfolding char_len
to_chars-to_units_example = to_chars-to_units line 4 (omega arith)

-- Runs: the end behind a wide character, and a span from the end.
to_units-line : to_units line 5 ≡ 6
unfolding to_units chars_to_units
to_units-line = refl

delete_span-tail : delete_span (negsuc 1) (pos 9) 5 ≡ some (3, 5)
unfolding delete_span
delete_span-tail = refl
