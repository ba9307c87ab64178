-- ===== src/Text/Edits.antt =====
-- What the writes do to the characters of a text.
use yrby.Base.{
  ℕ, zero, suc, ◌+◌, ◌-◌, ◌<◌, ◌≤◌, ◌≡◌, ◌∙◌, refl, sym, ap, ltb, if◌then◌else◌, false, none, some,
  List, [], ◌++◌, map, Str, length, take, skip, arith, Bool-cases, inl, inr,
}
use yrby.Base.Int.{ℤ, pos, negsuc}
use yrby.Yrs.{Out}
use yrby.Shared.Index.{insert_index, delete_span}
use yrby.Shared.Index.Ruby.{place, insert_index-place}
use yrby.Shared.Units.{char_len, end_or_units}
use yrby.Shared.Units.Widths.{total, units_of}
use yrby.Shared.Units.RoundTrip.{widths, widths-facts}
use yrby.Text.{Texts, Written, insert_at, push, delete, removed, clear}
use yrby.Text.Items.{
  Item, char, items, to_units-units_of, units_of-grows, units_of-all, append-take,
}

-- The start that an index names: a character, or the end.
abbrev pub IsStart : ℤ → ℕ → ℕ → Type 0
IsStart (pos n) len start = (n ≡ start) × (start ≤ len)
IsStart (negsuc n) len start = start + suc n ≡ len

-- A count, as far as there is room.
abbrev pub fitting : ℤ → ℕ → ℕ
fitting (pos m) room = if ltb room m then room else m
fitting (negsuc m) room = 0

pub delete_span-IsStart :
    (index count : ℤ) (len start stop : ℕ)
    → len < 4294967296
    → delete_span index count len ≡ some (start, stop)
    → IsStart index len start × (stop ≡ start + fitting count (len - start))
unfolding delete_span
delete_span-IsStart (pos n) (pos m) len start stop h e = ground (arith, e)
delete_span-IsStart (pos n) (negsuc m) len start stop h e = ground (arith, e)
delete_span-IsStart (negsuc n) (pos m) len start stop h e = ground (arith, e)
delete_span-IsStart (negsuc n) (negsuc m) len start stop h e = ground (arith, e)

pub delete_span-none :
    (index count : ℤ) (len start : ℕ)
    → len < 4294967296
    → delete_span index count len ≡ none
    → ¬ IsStart index len start
unfolding delete_span
delete_span-none (pos n) count len start h e = ground (arith, e)
delete_span-none (negsuc n) count len start h e = ground (arith, e)

-- What the source relies on: the length is that of all the units, and an insertion or a removal at
-- the units of a place puts in or takes out just the characters there.
pub record IsText (y : Texts) : Type 0 where
  pub len-units : (s : y.Store) (t : y.Ref) → y.len s t ≡ total (widths (y.pieces s t))
  pub insert-items :
      (s : y.Store) (t : y.Ref) (n : ℕ) (chunk : Str)
      → n ≤ char_len (y.pieces s t)
      → items (y.pieces (y.insert s t (units_of (widths (y.pieces s t)) n) chunk) t)
        ≡ take n (items (y.pieces s t)) ++ (map char chunk ++ skip n (items (y.pieces s t)))
  pub remove-items :
      (s : y.Store) (t : y.Ref) (m n : ℕ)
      → m ≤ n
      → n ≤ char_len (y.pieces s t)
      → items (
          y.pieces
            (y.remove_range s t
              (units_of (widths (y.pieces s t)) m)
              (units_of (widths (y.pieces s t)) n - units_of (widths (y.pieces s t)) m))
            t)
        ≡ take m (items (y.pieces s t)) ++ skip n (items (y.pieces s t))

-- The writes, with the indexes and lengths as Ruby gives them, in characters.
pub data Op : Type 0 where
  insert_op : ℤ → Str → Op
  push_op : Str → Op
  delete_op : ℤ → ℤ → Op
  clear_op : Op

-- What the characters become.
pub data TextStep {O : Type 0} : Op → List (Item O) → List (Item O) → Type 0 where
  inserts :
      (index : ℤ) (chunk : Str) (xs : List (Item O))
      → TextStep (insert_op index chunk) xs (
          take (place index (length xs)) xs
          ++ (map char chunk ++ skip (place index (length xs)) xs))
  pushes : (chunk : Str) (xs : List (Item O)) → TextStep (push_op chunk) xs (xs ++ map char chunk)
  deletes :
      (index count : ℤ) (start : ℕ) (xs : List (Item O))
      → IsStart index (length xs) start
      → TextStep
          (delete_op index count)
          xs
          (take start xs ++ skip (start + fitting count (length xs - start)) xs)
  keeps :
      (index count : ℤ) (xs : List (Item O))
      → ((start : ℕ) → ¬ IsStart index (length xs) start)
      → TextStep (delete_op index count) xs xs
  clears : (xs : List (Item O)) → TextStep clear_op xs []

-- Performing a write.
abbrev pub performed : (y : Texts) → y.Store → y.Identity → Op → Written y
performed y s id (insert_op index chunk) = insert_at y s id index chunk
performed y s id (push_op chunk) = push y s id chunk
performed y s id (delete_op index count) = delete y s id index count
performed y s id clear_op = clear y s id

module _ (y : Texts) (laws : IsText y) (s : y.Store) (t : y.Ref) where
  abbrev pub here : List (Item (Out y.Float y.Element y.Nested y.YMap))
  here = items (y.pieces s t)

  abbrev pub units_at : ℕ → ℕ
  units_at = units_of (widths (y.pieces s t))

  pub units_at-len : units_at (char_len (y.pieces s t)) ≡ y.len s t
  units_at-len =
      ap units_at (sym (widths-facts (y.pieces s t)).0)
      ∙ units_of-all (widths (y.pieces s t))
      ∙ sym (laws.len-units s t)

  -- The start and the end of what is removed, in units, enclose it.
  pub items-removed :
      (m n : ℕ)
      → m ≤ n
      → n ≤ char_len (y.pieces s t)
      → items (y.pieces (removed y s t (units_at m) (units_at n)) t) ≡ take m here ++ skip n here
  items-removed m n h k = elim (Bool-cases (ltb (units_at m) (units_at n))) [
    | inl e ↦ rw (e, laws.remove-items s t m n h k) refl
    | inr e ↦
        rw e (sym (append-take m here) ∙ ap (λ j. take m here ++ skip j here) (nothing_between e))
  ]
    where
      grows : units_at m + (n - m) ≤ units_at n
      grows =
          units_of-grows (widths (y.pieces s t)) m n (widths-facts (y.pieces s t)).1 h
            (omega (arith, k, (widths-facts (y.pieces s t)).0))

      nothing_between : ltb (units_at m) (units_at n) ≡ false → m ≡ n
      nothing_between e = ground (arith, e, grows, h)

  pub end_or_units-units_at :
      (index : ℤ)
      → char_len (y.pieces s t) < 4294967296
      → end_or_units (y.pieces s t) (y.len s t) index
        ≡ units_at (insert_index index (char_len (y.pieces s t)))
  unfolding end_or_units
  end_or_units-units_at (pos n) short = to_units-units_of (y.pieces s t) _
  end_or_units-units_at (negsuc (suc n)) short = to_units-units_of (y.pieces s t) _
  end_or_units-units_at (negsuc zero) short =
      sym units_at-len
      ∙ ap units_at
          (sym ((insert_index-place (negsuc 0) (char_len (y.pieces s t)) short).0 ∙ omega arith))
