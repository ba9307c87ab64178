-- ===== src/Shared/Units/Embedded.antt =====
-- Where the embedded `XmlText`s of a sequence stand.
use yrby.Base.{
  ℕ, ◌+◌, ◌-◌, ◌≡◌, Option, none, some, List, [], ◌∷◌, length, arith, ltb, Bool, true, false,
}
use yrby.Yrs.{Out, any, y_xml_text, Any}
use yrby.Shared.Units.{embedded_xml_texts, utf16_count, index_loop, embedded_xml_text_index}

abbrev pub is_some : {A : Type 0} → Option A → Bool
is_some none = false
is_some (some a) = true

module _ {F E T M : Type 0} where
  index_loop-length :
      (pieces : List (Out F E T M)) (n k seen index : ℕ)
      → n ≡ seen + k
      → is_some (index_loop pieces n seen index) ≡ ltb k (length (embedded_xml_texts pieces))
  unfolding index_loop embedded_xml_texts
  index_loop-length [] n k seen index e = ground arith
  index_loop-length (y_xml_text x ∷ pieces) n k seen index e =
      ground (arith, index_loop-length pieces n (k - 1) (seen + 1) (index + 1))
  index_loop-length (any (Any.string s) ∷ pieces) n k seen index e =
      index_loop-length pieces n k seen (index + utf16_count s) e
  index_loop-length (any _ ∷ pieces) n k seen index e =
      index_loop-length pieces n k seen (index + 1) e
  index_loop-length (_ ∷ pieces) n k seen index e = index_loop-length pieces n k seen (index + 1) e

  -- The index of the `n`-th embedded text is found exactly where there are more than `n` of them.
  pub embedded_xml_text_index-length :
      (pieces : List (Out F E T M)) (n : ℕ)
      → is_some (embedded_xml_text_index pieces n) ≡ ltb n (length (embedded_xml_texts pieces))
  unfolding embedded_xml_text_index
  embedded_xml_text_index-length pieces n = index_loop-length pieces n n 0 0 (omega arith)
