-- ===== src/Shared/Units/Found.antt =====
-- What stands at the index of an embedded `XmlText`.
use yrby.Base.{
  ℕ, ◌+◌, ◌-◌, ◌==◌, ◌≡◌, ◌∙◌, refl, sym, ap, subst, some, List, [], ◌∷◌, ◌++◌, length, arith,
  Bool-cases, inl, inr, false,
}
use yrby.Yrs.{Out, any, y_xml_text, Any}
use yrby.Shared.Units.{embedded_xml_texts, utf16_count, index_loop, embedded_xml_text_index}

module _ {F E T M : Type 0} where
  -- The units of a sequence.
  unfoldable pub units_in : List (Out F E T M) → ℕ
  units_in [] = 0
  units_in (any (Any.string s) ∷ pieces) = utf16_count s + units_in pieces
  units_in (_ ∷ pieces) = 1 + units_in pieces

  -- The embedded text behind `k` others stands at `at`.
  abbrev pub StandsAt : List (Out F E T M) → ℕ → ℕ → Type 0
  StandsAt pieces k at =
      (before : List (Out F E T M)) × (x : T) × (after : List (Out F E T M)) × (pieces
        ≡ before ++ y_xml_text x ∷ after)
      × (length (embedded_xml_texts before) ≡ k)
      × (at ≡ units_in before)

  module _ (piece : Out F E T M) (w c : ℕ) where
    behind :
        (pieces : List (Out F E T M)) (j k at : ℕ)
        → j ≡ c + k
        → ((l : List (Out F E T M)) → units_in (piece ∷ l) ≡ w + units_in l)
        → ((l : List (Out F E T M))
            → length (embedded_xml_texts (piece ∷ l)) ≡ c + length (embedded_xml_texts l))
        → StandsAt pieces k at
        → StandsAt (piece ∷ pieces) j (w + at)
    behind pieces j k at ej hw hc (l, x, r, e, el, ea) = (
      piece ∷ l,
      x,
      r,
      ap (λ ps. piece ∷ ps) e,
      hc l ∙ ap (λ n. c + n) el ∙ sym ej,
      ap (λ n. w + n) ea ∙ sym (hw l),
    )

  -- What the loop finds, counted from where it stands.
  abbrev Reached : List (Out F E T M) → ℕ → ℕ → ℕ → Type 0
  Reached pieces k index at = (off : ℕ) × StandsAt pieces k off × (at ≡ index + off)

  index_loop-Reached :
      (pieces : List (Out F E T M)) (n k seen index at : ℕ)
      → n ≡ seen + k
      → index_loop pieces n seen index ≡ some at
      → Reached pieces k index at
  unfolding index_loop embedded_xml_texts units_in
  index_loop-Reached [] n k seen index at e h = absurd cc
  index_loop-Reached (y_xml_text x ∷ pieces) n k seen index at e h = elim (Bool-cases (seen == n)) [
    | inl t ↦ (0, ([], x, pieces, refl, ground (arith, t, e), refl), ground (arith, t, h))
    | inr f ↦
        later
          (index_loop-Reached pieces n (k - 1) (seen + 1) (index + 1) at (ground (arith, f, e))
            (ground (arith, f, h)))
          f
  ]
    where
      later :
          Reached pieces (k - 1) (index + 1) at
          → seen == n ≡ false
          → Reached (y_xml_text x ∷ pieces) k index at
      later (off, stands, ea) f = (
        1 + off,
        behind (y_xml_text x) 1 1 pieces k (k - 1) off (ground (arith, f, e)) (λ l. refl)
            (λ l. omega arith) stands,
        omega (arith, ea),
      )
  index_loop-Reached (any (Any.string s) ∷ pieces) n k seen index at e h =
      let (off, stands, ea) = index_loop-Reached pieces n k seen (index + utf16_count s) at e h in
      (
        utf16_count s + off,
        behind (any (Any.string s)) (utf16_count s) 0 pieces k k off (omega arith) (λ l. refl)
            (λ l. omega arith) stands,
        omega (arith, ea),
      )
  index_loop-Reached (any a ∷ pieces) n k seen index at e h =
      let (off, stands, ea) = index_loop-Reached pieces n k seen (index + 1) at e h in
      (
        1 + off,
        behind (any a) 1 0 pieces k k off (omega arith) (λ l. refl) (λ l. omega arith) stands,
        omega (arith, ea),
      )
  index_loop-Reached (p ∷ pieces) n k seen index at e h =
      let (off, stands, ea) = index_loop-Reached pieces n k seen (index + 1) at e h in
      (
        1 + off,
        behind p 1 0 pieces k k off (omega arith) (λ l. refl) (λ l. omega arith) stands,
        omega (arith, ea),
      )

  -- Where an index is found for the `n`-th embedded text, that text stands there.
  pub embedded_xml_text_index-StandsAt :
      (pieces : List (Out F E T M)) (n at : ℕ)
      → embedded_xml_text_index pieces n ≡ some at
      → StandsAt pieces n at
  unfolding embedded_xml_text_index
  embedded_xml_text_index-StandsAt pieces n at h =
      let (off, stands, ea) = index_loop-Reached pieces n n 0 0 at (omega arith) h in
      subst (StandsAt pieces n) (omega (arith, ea)) stands
