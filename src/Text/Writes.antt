-- ===== src/Text/Writes.antt =====
-- Each write of a text, and all of them: what a live handle's characters become.
use yrby.Base.{
  ℕ, ◌+◌, ◌-◌, ◌<◌, ◌≤◌, ◌≡◌, ◌∙◌, refl, sym, subst, ap, some, List, [], ◌++◌, append-nil, map, Str,
  length, take, skip, arith, Option-cases, inl, inr,
}
use yrby.Base.Int.{ℤ, negsuc}
use yrby.Base.Result.{ok}
use yrby.Yrs.{Out}
use yrby.Shared.Index.{insert_index, delete_span}
use yrby.Shared.Index.Ruby.{place, insert_index-place, IsSpan, delete_span-IsSpan}
use yrby.Shared.Units.{char_len}
use yrby.Shared.Units.Widths.{units_of-zero}
use yrby.Shared.Units.RoundTrip.{widths}
use yrby.Text.{
  Texts, Written, inserted_in, insert_at, push, delete, deleted_in, removed, cut_out, cleared,
  clear,
}
use yrby.Text.Items.{Item, char, items, length-items, to_units-units_of, take_all, skip_all}
use yrby.Text.Edits.{
  IsStart, fitting, delete_span-IsStart, delete_span-none, IsText, Op, insert_op, push_op,
  delete_op, clear_op, TextStep, inserts, pushes, deletes, keeps, clears, performed, here,
  units_at-len, items-removed, end_or_units-units_at,
}

module _ (y : Texts) (laws : IsText y) (s : y.Store) (id : y.Identity) (t : y.Ref)
    (live : y.resolve s id ≡ some t) (short : char_len (y.pieces s t) < 4294967296) where
  abbrev now : List (Item (Out y.Float y.Element y.Nested y.YMap))
  now = here y laws s t

  long : length now ≡ char_len (y.pieces s t)
  long = length-items (y.pieces s t)

  -- A write that leaves `after` and returns.
  abbrev Leaves : Op → Written y → Type 0
  Leaves op w = TextStep op now (items (y.pieces w.0 t)) × (w.1 ≡ ok tt)

  inserted-items :
      (index : ℤ) (chunk : Str)
      → items (y.pieces (inserted_in y s (some t) index chunk).0 t)
        ≡ take (place index (length now)) now
          ++ (map char chunk ++ skip (place index (length now)) now)
  inserted-items index chunk =
      let (placed, inside) = insert_index-place index (char_len (y.pieces s t)) short in
      ap (λ n. items (y.pieces (y.insert s t n chunk) t))
        (end_or_units-units_at y laws s t index short)
      ∙ laws.insert-items s t (insert_index index (char_len (y.pieces s t))) chunk inside
      ∙ ap (λ n. take n now ++ (map char chunk ++ skip n now))
          (placed ∙ ap (place index) (sym long))

  inserted-Leaves :
      (index : ℤ) (chunk : Str)
      → Leaves (insert_op index chunk) (inserted_in y s (some t) index chunk)
  inserted-Leaves index chunk = (
    subst (TextStep (insert_op index chunk) now) (sym (inserted-items index chunk))
        (inserts index chunk now),
    refl,
  )

  pushed-Leaves : (chunk : Str) → Leaves (push_op chunk) (inserted_in y s (some t) (negsuc 0) chunk)
  pushed-Leaves chunk = (
    subst (TextStep (push_op chunk) now) (sym (inserted-items (negsuc 0) chunk ∙ at_end))
        (pushes chunk now),
    refl,
  )
    where
      all : length now - 0 ≡ length now
      all = omega arith

      at_end :
          take (length now - 0) now ++ (map char chunk ++ skip (length now - 0) now)
          ≡ now ++ map char chunk
      at_end =
          rw
            (
              all,
              take_all now,
              skip_all now,
              append-nil {A = Item (Out y.Float y.Element y.Nested y.YMap)} (map char chunk),
            )
            refl

  deleted-items :
      (start stop : ℕ)
      → start ≤ stop
      → stop ≤ char_len (y.pieces s t)
      → items (y.pieces (cut_out y s t (some (start, stop))) t) ≡ take start now ++ skip stop now
  deleted-items start stop h k =
      (λ i. items (
        y.pieces
          (removed y s t (to_units-units_of (y.pieces s t) start i)
            (to_units-units_of (y.pieces s t) stop i))
          t))
      ∙ items-removed y laws s t start stop h k

  deleted-Leaves :
      (index count : ℤ) → Leaves (delete_op index count) (deleted_in y s (some t) index count)
  deleted-Leaves index count =
      elim (Option-cases (delete_span index count (char_len (y.pieces s t)))) [
        | inl e ↦
            subst (λ o. Leaves (delete_op index count) (cut_out y s t o, ok tt)) (sym e)
              (
                keeps index count now (λ start h.
                    delete_span-none index count (char_len (y.pieces s t)) start short e
                      (subst (λ n. IsStart index n start) long h)),
                refl,
              )
        | inr ((start, stop), e) ↦
            subst (λ o. Leaves (delete_op index count) (cut_out y s t o, ok tt)) (sym e)
              (removed_between start stop e, refl)
      ]
    where
      removed_between :
          (start stop : ℕ)
          → delete_span index count (char_len (y.pieces s t)) ≡ some (start, stop)
          → TextStep
              (delete_op index count)
              now
              (items (y.pieces (cut_out y s t (some (start, stop))) t))
      removed_between start stop e =
          let (ordered, inside) =
            subst (IsSpan (char_len (y.pieces s t))) e
              (delete_span-IsSpan index count (char_len (y.pieces s t)) short) in
          let (starts, stops) =
            delete_span-IsStart index count (char_len (y.pieces s t)) start stop short e in
          subst (TextStep (delete_op index count) now)
            (ap (λ n. take start now ++ skip n now)
                (ap (λ n. start + fitting count (n - start)) long ∙ sym stops)
              ∙ sym (deleted-items start stop ordered inside))
            (deletes index count start now (subst (λ n. IsStart index n start) (sym long) starts))

  cleared-Leaves : Leaves clear_op (cleared y s (some t))
  cleared-Leaves = (subst (TextStep clear_op now) (sym emptied) (clears now), refl)
    where
      emptied : items (y.pieces (removed y s t 0 (y.len s t)) t) ≡ []
      emptied =
          (λ i. items (
            y.pieces
              (removed y s t (sym (units_of-zero (widths (y.pieces s t))) i)
                (sym (units_at-len y laws s t) i))
              t))
          ∙ items-removed y laws s t 0 (char_len (y.pieces s t)) (omega arith) (omega arith)
          ∙ ap (λ n. skip n now) (sym long)
          ∙ skip_all now

  -- Every write of a handle to a live text of less than 2^32 characters returns, and leaves its
  -- characters and embeds edited at the places that the indexes name in characters, whatever the
  -- units that the document counts: an insertion is clamped into the text, a deletion stops at the
  -- end, and one that starts outside changes nothing.
  pub performed-TextStep :
      (op : Op)
      → TextStep op (items (y.pieces s t)) (items (y.pieces (performed y s id op).0 t))
        × ((performed y s id op).1 ≡ ok tt)
  unfolding insert_at push delete clear
  performed-TextStep (insert_op index chunk) =
      subst (λ o. Leaves (insert_op index chunk) (inserted_in y s o index chunk)) (sym live)
        (inserted-Leaves index chunk)
  performed-TextStep (push_op chunk) =
      subst (λ o. Leaves (push_op chunk) (inserted_in y s o (negsuc 0) chunk)) (sym live)
        (pushed-Leaves chunk)
  performed-TextStep (delete_op index count) =
      subst (λ o. Leaves (delete_op index count) (deleted_in y s o index count)) (sym live)
        (deleted-Leaves index count)
  performed-TextStep clear_op =
      subst (λ o. Leaves clear_op (cleared y s o)) (sym live) cleared-Leaves
