-- ===== src/Shared/Index/Ruby.antt =====
-- What an index means: a position from the front, or from the end where it is negative.
use yrby.Base.{ℕ, suc, ◌+◌, ◌-◌, ◌<◌, ◌≤◌, ltb, if◌then◌else◌, Option, none, some, ◌≡◌, ◌↔◌, arith}
use yrby.Base.Int.{ℤ, pos, negsuc}
use yrby.Shared.Index.{insert_index, element_index, delete_span}

-- The place that an insertion's index names: -(n+1) has n elements behind it, if there are as many.
abbrev pub place : ℤ → ℕ → ℕ
place (pos n) len = if ltb len n then len else n
place (negsuc n) len = len - n

-- An insertion's index names a place inside the sequence or at its end, for any `i64`.
pub insert_index-place :
    (index : ℤ) (len : ℕ)
    → len < 4294967296
    → (insert_index index len ≡ place index len) × (insert_index index len ≤ len)
unfolding insert_index
insert_index-place (pos n) len h = ground arith
insert_index-place (negsuc n) len h = ground arith

-- The element `k` is the one that `index` names.
abbrev pub IsElement : ℤ → ℕ → ℕ → Type 0
IsElement (pos n) len k = (n ≡ k) × (k < len)
IsElement (negsuc n) len k = k + suc n ≡ len

-- `element_index` finds exactly the element that the index names, from either end.
pub element_index-IsElement :
    (index : ℤ) (len k : ℕ)
    → len < 4294967296
    → (element_index index len ≡ some k) ↔ IsElement index len k
unfolding element_index
element_index-IsElement (pos n) len k h = ground arith
element_index-IsElement (negsuc n) len k h = ground arith

-- A span of characters in a text of `len`.
abbrev pub IsSpan : ℕ → Option (ℕ × ℕ) → Type 0
IsSpan len none = Unit
IsSpan len (some (start, stop)) = (start ≤ stop) × (stop ≤ len)

-- What `delete_span` removes lies inside the text, whatever index and length are asked for.
pub delete_span-IsSpan :
    (index length : ℤ) (len : ℕ) → len < 4294967296 → IsSpan len (delete_span index length len)
unfolding delete_span
delete_span-IsSpan (pos n) (pos m) len h = ground arith
delete_span-IsSpan (pos n) (negsuc m) len h = ground arith
delete_span-IsSpan (negsuc n) (pos m) len h = ground arith
delete_span-IsSpan (negsuc n) (negsuc m) len h = ground arith
