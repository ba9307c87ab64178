-- ===== src/Tests/XmlText.antt =====
-- The theorem on blocks at a concrete document: one block, as its pieces.
use yrby.Base.{
  ℕ, ◌+◌, ◌-◌, ◌==◌, ◌≡◌, ◌∙◌, refl, ap, if◌then◌else◌, Bool, true, false, some, List, [], ◌∷◌,
  ◌++◌, codes, arith,
}
use yrby.Base.Int.{negsuc}
use yrby.Base.Result.{ok}
use yrby.Yrs.{Out, any, y_map, y_xml_text, Any}
use yrby.Shared.Index.{element_index}
use yrby.Shared.Units.{embedded_xml_texts, utf16_count, index_loop, embedded_xml_text_index}
use yrby.Shared.Units.Found.{units_in}
use yrby.XmlText.{XmlTexts, delete_xml_text}
use yrby.XmlText.Removal.{IsXmlText, BlockStep, delete_xml_text-BlockStep}

abbrev Piece : Type 0
Piece = Out ℕ ℕ ℕ ℕ

-- The pieces without the block at some units.
unfoldable cut : List Piece → ℕ → List Piece
cut [] n = []
cut (any (Any.string s) ∷ ps) n = any (Any.string s) ∷ cut ps (n - utf16_count s)
cut (y_xml_text x ∷ ps) n = let rest = cut ps (n - 1) in if n == 0 then ps else y_xml_text x ∷ rest
cut (p ∷ ps) n = p ∷ cut ps (n - 1)

abbrev one_block : XmlTexts
one_block = record {
  Float = ℕ;
  Element = ℕ;
  Block = ℕ;
  YMap = ℕ;
  Store = List Piece;
  Identity = ℕ;
  resolve = λ _ id. some id;
  identity = λ x. x;
  pieces = λ s _. s;
  len = λ s _. units_in s;
  get_string = λ s _. [];
  insert = λ s _ at chunk. any (Any.string chunk) ∷ s;
  remove_range = λ s _ from _. cut s from;
}

cut-around :
    (l r : List Piece) (x : ℕ)
    → embedded_xml_texts (cut (l ++ y_xml_text x ∷ r) (units_in l))
      ≡ embedded_xml_texts l ++ embedded_xml_texts r
unfolding cut embedded_xml_texts units_in
cut-around [] r x = refl
cut-around (any (Any.string s) ∷ l) r x =
    ap (λ n. embedded_xml_texts (cut (l ++ y_xml_text x ∷ r) n)) (past (utf16_count s) (units_in l))
    ∙ cut-around l r x
  where
    past : (a b : ℕ) → (a + b) - a ≡ b
    past a b = omega arith
cut-around (y_xml_text z ∷ l) r x =
    rw (not_here (units_in l), past (units_in l)) (ap (λ xs. z ∷ xs) (cut-around l r x))
  where
    not_here : (n : ℕ) → (1 + n == 0) ≡ false
    not_here n = ground arith

    past : (n : ℕ) → (1 + n) - 1 ≡ n
    past n = omega arith
cut-around (any a ∷ l) r x =
    ap (λ n. embedded_xml_texts (cut (l ++ y_xml_text x ∷ r) n)) (past (units_in l))
    ∙ cut-around l r x
  where
    past : (n : ℕ) → (1 + n) - 1 ≡ n
    past n = omega arith
cut-around (p ∷ l) r x =
    ap (λ n. embedded_xml_texts (cut (l ++ y_xml_text x ∷ r) n)) (past (units_in l))
    ∙ cut-around l r x
  where
    past : (n : ℕ) → (1 + n) - 1 ≡ n
    past n = omega arith

one_block-IsXmlText : IsXmlText one_block
one_block-IsXmlText = record {
  remove-block = λ s x before after block e.
      ap (λ ps. embedded_xml_texts (cut ps (units_in before))) e ∙ cut-around before after block;
}

abbrev links : List Piece
links = any (Any.string (codes "see")) ∷ y_xml_text 1 ∷ y_map 0 ∷ y_xml_text 2 ∷ []

delete_xml_text-BlockStep_example :
    (reply : Bool) × ((delete_xml_text one_block links 0 (negsuc 0)).1 ≡ ok reply)
    × BlockStep
        (negsuc 0)
        (embedded_xml_texts links)
        (embedded_xml_texts (delete_xml_text one_block links 0 (negsuc 0)).0)
        reply
unfolding embedded_xml_texts
delete_xml_text-BlockStep_example =
    delete_xml_text-BlockStep one_block one_block-IsXmlText links 0 0 refl (omega arith) (negsuc 0)

-- A run of the model.
delete_xml_text-last :
    delete_xml_text one_block links 0 (negsuc 0)
    ≡ (any (Any.string (codes "see")) ∷ y_xml_text 1 ∷ y_map 0 ∷ [], ok true)
unfolding delete_xml_text cut embedded_xml_texts embedded_xml_text_index index_loop element_index
    utf16_count
delete_xml_text-last = refl
