-- ===== src/XmlText/Removal.antt =====
-- `delete_xml_text` removes just the embedded block that its index names.
use yrby.Base.{
  ℕ, suc, ◌<◌, ◌≡◌, ◌∙◌, refl, sym, subst, ap, none, some, List, [], ◌∷◌, ◌++◌, length, take, skip,
  arith, ltb, Bool, true, false, Option-cases, inl, inr,
}
use yrby.Base.Int.{ℤ, pos, negsuc}
use yrby.Base.Result.{ok}
use yrby.Yrs.{Out, any, y_xml_text}
use yrby.Shared.Index.{as_u32, element_index}
use yrby.Shared.Index.Ruby.{IsElement, element_index-IsElement}
use yrby.Shared.Units.{embedded_xml_texts, embedded_xml_text_index}
use yrby.Shared.Units.Embedded.{is_some, embedded_xml_text_index-length}
use yrby.Shared.Units.Found.{units_in, StandsAt, embedded_xml_text_index-StandsAt}
use yrby.XmlText.{XmlTexts, Written, block_removed, block_deleted_in, delete_xml_text}

-- What the source relies on: removing the unit of an embedded block takes it out, and leaves the
-- other blocks, in their order.
pub record IsXmlText (y : XmlTexts) : Type 0 where
  pub remove-block :
      (s : y.Store) (x : y.Block) (before after : List (Out y.Float y.Element y.Block y.YMap))
      (block : y.Block)
      → y.pieces s x ≡ before ++ y_xml_text block ∷ after
      → embedded_xml_texts (y.pieces (y.remove_range s x (units_in before) 1) x)
        ≡ embedded_xml_texts before ++ embedded_xml_texts after

-- What becomes of the blocks, and the reply.
pub data BlockStep {T : Type 0} (n : ℤ) (blocks : List T) : List T → Bool → Type 0 where
  removes :
      (k : ℕ)
      → IsElement n (length blocks) k
      → BlockStep n blocks (take k blocks ++ skip (suc k) blocks) true
  keeps : ((k : ℕ) → ¬ IsElement n (length blocks) k) → BlockStep n blocks blocks false

inside : (n : ℤ) (len k : ℕ) → IsElement n len k → k < len
inside (pos n) len k h = h.1
inside (negsuc n) len k h = omega (arith, h)

module _ {A : Type 0} where
  taken_out :
      (l r : List A) (x : A) (k : ℕ)
      → length l ≡ k
      → take k (l ++ x ∷ r) ++ skip (suc k) (l ++ x ∷ r) ≡ l ++ r
  taken_out l r x k e =
      subst (λ n. take n (l ++ x ∷ r) ++ skip (suc n) (l ++ x ∷ r) ≡ l ++ r) e (here l)
    where
      here :
          (l : List A) → take (length l) (l ++ x ∷ r) ++ skip (suc (length l)) (l ++ x ∷ r) ≡ l ++ r
      here [] = refl
      here (z ∷ zs) = ap (λ ts. z ∷ ts) (here zs)

module _ {F E T M : Type 0} where
  embedded_xml_texts-append :
      (ps qs : List (Out F E T M))
      → embedded_xml_texts (ps ++ qs) ≡ embedded_xml_texts ps ++ embedded_xml_texts qs
  unfolding embedded_xml_texts
  embedded_xml_texts-append [] qs = refl
  embedded_xml_texts-append (y_xml_text x ∷ ps) qs =
      ap (λ ts. x ∷ ts) (embedded_xml_texts-append ps qs)
  embedded_xml_texts-append (any a ∷ ps) qs = embedded_xml_texts-append ps qs
  embedded_xml_texts-append (p ∷ ps) qs = embedded_xml_texts-append ps qs

  embedded_xml_texts-around :
      (ps qs : List (Out F E T M)) (x : T)
      → embedded_xml_texts (ps ++ y_xml_text x ∷ qs)
        ≡ embedded_xml_texts ps ++ x ∷ embedded_xml_texts qs
  unfolding embedded_xml_texts
  embedded_xml_texts-around ps qs x = embedded_xml_texts-append ps (y_xml_text x ∷ qs)

module _ (y : XmlTexts) (laws : IsXmlText y) (s : y.Store) (id : y.Identity) (x : y.Block)
    (live : y.resolve s id ≡ some x)
    (short : length (embedded_xml_texts (y.pieces s x)) < 4294967296) where
  abbrev blocks : y.Store → List y.Block
  blocks t = embedded_xml_texts (y.pieces t x)

  blocks-removed :
      (k at : ℕ)
      → StandsAt (y.pieces s x) k at
      → blocks (y.remove_range s x at 1) ≡ take k (blocks s) ++ skip (suc k) (blocks s)
  blocks-removed k at (before, block, after, e, el, ea) =
      ap (λ n. blocks (y.remove_range s x n 1)) ea
      ∙ laws.remove-block s x before after block e
      ∙ sym (taken_out (embedded_xml_texts before) (embedded_xml_texts after) block k el)
      ∙ ap (λ bs. take k bs ++ skip (suc k) bs)
          (sym (ap embedded_xml_texts e ∙ embedded_xml_texts-around before after block))

  abbrev Steps : ℤ → Written y Bool → Type 0
  Steps n w = (reply : Bool) × (w.1 ≡ ok reply) × BlockStep n (blocks s) (blocks w.0) reply

  named :
      (n : ℤ) (k : ℕ)
      → IsElement n (length (blocks s)) k
      → Steps n (block_removed y s x (embedded_xml_text_index (y.pieces s x) k))
  named n k h = elim (Option-cases (embedded_xml_text_index (y.pieces s x) k)) [
    | inl e ↦ absurd (missing e)
    | inr (at, e) ↦
        subst (λ o. Steps n (block_removed y s x o)) (sym e)
          (
            true,
            refl,
            subst (λ bs. BlockStep n (blocks s) bs true)
                (sym (blocks-removed k at (embedded_xml_text_index-StandsAt (y.pieces s x) k at e)))
                (removes k h),
          )
  ]
    where
      missing : ¬ (embedded_xml_text_index (y.pieces s x) k ≡ none)
      missing e =
          let found : ltb k (length (blocks s)) ≡ false =
            sym (embedded_xml_text_index-length (y.pieces s x) k) ∙ ap is_some e in
          let bound : k < length (blocks s) = inside n (length (blocks s)) k h in
          ground (arith, found, bound)

  unnamed :
      (n : ℤ)
      → element_index n (length (blocks s)) ≡ none
      → (k : ℕ) → ¬ IsElement n (length (blocks s)) k
  unnamed n e k h =
      let found : element_index n (length (blocks s)) ≡ some k =
        (element_index-IsElement n (length (blocks s)) k short).1 h in
      cc

  deleted-Steps : (n : ℤ) → Steps n (block_deleted_in y s (some x) n)
  deleted-Steps n = rw in_u32 (elim (Option-cases (element_index n (length (blocks s)))) [
    | inl e ↦ rw e (false, refl, keeps (unnamed n e))
    | inr (k, e) ↦ rw e (named n k ((element_index-IsElement n (length (blocks s)) k short).0 e))
  ])
    where
      in_u32 : as_u32 (length (blocks s)) ≡ length (blocks s)
      in_u32 = ground (arith, short)

  -- Where a handle's block is there and embeds fewer than 2^32 blocks, `delete_xml_text` replies
  -- whether its index names one of them from either end, and takes out that block and no other.
  pub delete_xml_text-BlockStep :
      (n : ℤ)
      → (reply : Bool) × ((delete_xml_text y s id n).1 ≡ ok reply)
        × BlockStep n (blocks s) (blocks (delete_xml_text y s id n).0) reply
  unfolding delete_xml_text
  delete_xml_text-BlockStep n =
      subst (λ o. Steps n (block_deleted_in y s o n)) (sym live) (deleted-Steps n)
