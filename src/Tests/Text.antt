-- ===== src/Tests/Text.antt =====
-- The theorem on shared texts at a concrete document: one string, edited by UTF-16 units.
use yrby.Base.{
  ℕ, zero, suc, ◌+◌, ◌-◌, ◌<◌, ◌≤◌, ◌≡◌, ◌∙◌, refl, sym, ap, some, List, [], ◌∷◌, ◌++◌, append-nil,
  map, map-append, Str, take, skip, arith,
}
use yrby.Base.Int.{pos, negsuc}
use yrby.Base.Result.{ok}
use yrby.Yrs.{Out, any, Any}
use yrby.Shared.Index.{insert_index, delete_span}
use yrby.Shared.Units.{
  char_len, to_units, to_chars, end_or_units, chars_to_units, units_to_chars, chars_loop,
}
use yrby.Shared.Units.Widths.{total, units_of}
use yrby.Shared.Units.RoundTrip.{widths, to_chars-to_units, widths-facts}
use yrby.Text.{Texts, insert_at, delete, push}
use yrby.Text.Items.{Item, char, items, to_units-units_of, units_of-grows}
use yrby.Text.Edits.{IsText, TextStep, delete_op, performed}
use yrby.Text.Writes.{performed-TextStep}

abbrev Piece : Type 0
Piece = Out ℕ ℕ ℕ ℕ

abbrev one : Str → List Piece
one s = any (Any.string s) ∷ []

abbrev string_text : Texts
string_text = record {
  Float = ℕ;
  Element = ℕ;
  Nested = ℕ;
  YMap = ℕ;
  Store = Str;
  Identity = Unit {0};
  Ref = Unit {0};
  resolve = λ _ _. some tt;
  pieces = λ s _. one s;
  len = λ s _. total (widths (one s));
  get_string = λ s _. s;
  insert = λ s _ at chunk. take (to_chars (one s) at) s ++ (chunk ++ skip (to_chars (one s) at) s);
  remove_range =
      λ s _ from count. take (to_chars (one s) from) s ++ skip (to_chars (one s) (from + count)) s;
}

abbrev chars : Str → List (Item Piece)
chars s = map char s

items-one : (s : Str) → items (one s) ≡ chars s
unfolding items
items-one s = append-nil (chars s)

map-take : (n : ℕ) (xs : Str) → chars (take n xs) ≡ take n (chars xs)
map-take zero xs = refl
map-take (suc n) [] = refl
map-take (suc n) (x ∷ xs) = ap (λ cs. char x ∷ cs) (map-take n xs)

map-skip : (n : ℕ) (xs : Str) → chars (skip n xs) ≡ skip n (chars xs)
map-skip zero xs = refl
map-skip (suc n) [] = refl
map-skip (suc n) (x ∷ xs) = map-skip n xs

reached :
    (s : Str) (n : ℕ) → n ≤ char_len (one s) → to_chars (one s) (units_of (widths (one s)) n) ≡ n
reached s n h =
    ap (to_chars (one s)) (sym (to_units-units_of (one s) n)) ∙ to_chars-to_units (one s) n h

string_text-IsText : IsText string_text
string_text-IsText = record {
  len-units = λ s t. refl;
  insert-items = λ s t n chunk h.
      rw
        (
          reached s n h,
          items-one (take n s ++ (chunk ++ skip n s)),
          map-append,
          map-append,
          map-take,
          map-skip,
          items-one s,
        )
        refl;
  remove-items = λ s t m n h k.
      rw
        (
          reached s m (omega arith),
          span s m n h k,
          reached s n k,
          items-one (take m s ++ skip n s),
          map-append,
          map-take,
          map-skip,
          items-one s,
        )
        refl;
}
  where
    span :
        (s : Str) (m n : ℕ)
        → m ≤ n
        → n ≤ char_len (one s)
        → units_of (widths (one s)) m + (units_of (widths (one s)) n - units_of (widths (one s)) m)
          ≡ units_of (widths (one s)) n
    span s m n h k = omega (
      arith,
      units_of-grows (widths (one s)) m n (widths-facts (one s)).1 h
          (omega (arith, k, (widths-facts (one s)).0)),
    )

-- "a😀c"
abbrev smile : Str
smile = 97 ∷ 128512 ∷ 99 ∷ []

performed-TextStep_example :
    TextStep
      (delete_op (negsuc 1) (pos 9))
      (items (one smile))
      (items (one (performed string_text smile tt (delete_op (negsuc 1) (pos 9))).0))
    × ((performed string_text smile tt (delete_op (negsuc 1) (pos 9))).1 ≡ ok tt)
unfolding char_len
performed-TextStep_example =
    performed-TextStep string_text string_text-IsText smile tt tt refl short
      (delete_op (negsuc 1) (pos 9))
  where
    short : char_len (one smile) < 4294967296
    short = omega arith

-- Runs of the model.
delete-two : delete string_text smile tt (pos 1) (pos 2) ≡ (97 ∷ [], ok tt)
unfolding delete delete_span to_units to_chars char_len chars_to_units units_to_chars chars_loop
delete-two = refl

insert_at-after_the_smile :
    insert_at string_text smile tt (pos 2) (98 ∷ []) ≡ (97 ∷ 128512 ∷ 98 ∷ 99 ∷ [], ok tt)
unfolding insert_at end_or_units insert_index to_chars char_len chars_to_units units_to_chars
    chars_loop
insert_at-after_the_smile = refl

push-end : push string_text smile tt (100 ∷ []) ≡ (97 ∷ 128512 ∷ 99 ∷ 100 ∷ [], ok tt)
unfolding push insert_at end_or_units to_chars widths total units_to_chars chars_loop
push-end = refl
