-- ===== src/Shared/Index.antt =====
-- The Ruby indexes of ext/yrby/src/shared.rs: `insert_index`, `element_index` and `delete_span`.
-- An index is an `i64` and a length a `u32`, so that no sum of the two overflows an `i64`.
pub mod Ruby
use yrby.Base.{ℕ, suc, ◌+◌, ◌-◌, ◌%◌, ltb, if◌then◌else◌, Bool, true, false, Option, none, some}
use yrby.Base.Int.{ℤ, pos, negsuc}

-- `len as i64 + index`
unfoldable pub plus : ℕ → ℤ → ℤ
plus len (pos n) = pos (len + n)
plus len (negsuc n) = if ltb n len then pos (len - suc n) else negsuc (n - len)

-- `if index < 0 { negative } else { index }`
abbrev from_end : ℤ → ℤ → ℤ
from_end (pos n) negative = pos n
from_end (negsuc n) negative = negative

-- `i.clamp(0, high)`
unfoldable pub clamp : ℤ → ℕ → ℕ
clamp (pos n) high = if ltb high n then high else n
clamp (negsuc n) high = 0

-- `n as u32`
abbrev pub as_u32 : ℕ → ℕ
as_u32 n = n % 4294967296

unfoldable pub insert_index : ℤ → ℕ → ℕ
unfolding plus clamp
insert_index index len = as_u32 (clamp (from_end index (plus 1 (plus len index))) len)

-- `(0..len).contains(&i).then_some(i as u32)`
abbrev then_element : ℤ → ℕ → Option ℕ
then_element (pos n) len = if ltb n len then some (as_u32 n) else none
then_element (negsuc n) len = none

unfoldable pub element_index : ℤ → ℕ → Option ℕ
unfolding plus
element_index index len = then_element (from_end index (plus len index)) len

abbrev span_from : ℤ → ℤ → ℕ → Option (ℕ × ℕ)
span_from (negsuc n) length len = none
span_from (pos start) length len =
    if ltb len start then none else some (as_u32 start, as_u32 (start + clamp length (len - start)))

unfoldable pub delete_span : ℤ → ℤ → ℕ → Option (ℕ × ℕ)
unfolding plus clamp
delete_span index length len = span_from (from_end index (plus len index)) length len
