-- ===== src/Text/Items.antt =====
-- A text as its characters and embeds, and the units that they take up.
use yrby.Base.{
  ℕ, zero, suc, ◌+◌, ◌-◌, ◌≤◌, ◌≡◌, ◌∙◌, refl, sym, ap, List, [], ◌∷◌, ◌++◌, map, length,
  length-append, take, skip, All, arith,
}
use yrby.Yrs.{Out, any, Any}
use yrby.Shared.Units.{char_len, to_units}
use yrby.Shared.Units.Widths.{total, units_of, units_of-zero, IsWidth, widths_in-length}
use yrby.Shared.Units.RoundTrip.{piece_widths, widths, units_loop-units_of, widths-facts}

-- A place of a sequence: a character, or anything embedded, which counts as one.
pub data Item (O : Type 0) : Type 0 where
  char : ℕ → Item O
  embed : O → Item O

length-map : {A B : Type 0} (f : A → B) (xs : List A) → length (map f xs) ≡ length xs
length-map f [] = refl
length-map f (x ∷ xs) = ap suc (length-map f xs)

module _ {F E T M : Type 0} where
  abbrev items_in : Out F E T M → List (Item (Out F E T M))
  items_in (any (Any.string s)) = map char s
  items_in piece = embed piece ∷ []

  -- A sequence as its characters and embeds.
  unfoldable pub items : List (Out F E T M) → List (Item (Out F E T M))
  items [] = []
  items (piece ∷ pieces) = items_in piece ++ items pieces

  length-items_in : (piece : Out F E T M) → length (items_in piece) ≡ length (piece_widths piece)
  length-items_in (any (Any.string s)) = length-map char s ∙ sym (widths_in-length s)
  length-items_in (any Any.null) = refl
  length-items_in (any _) = refl
  length-items_in (Out.y_map _) = refl
  length-items_in _ = refl

  length-items-widths :
      (pieces : List (Out F E T M)) → length (items pieces) ≡ length (widths pieces)
  unfolding items widths
  length-items-widths [] = refl
  length-items-widths (piece ∷ pieces) =
      length-append (items_in piece) (items pieces)
      ∙ ap (λ n. n + length (items pieces)) (length-items_in piece)
      ∙ ap (λ n. length (piece_widths piece) + n) (length-items-widths pieces)
      ∙ sym (length-append (piece_widths piece) (widths pieces))

  pub length-items : (pieces : List (Out F E T M)) → length (items pieces) ≡ char_len pieces
  length-items pieces = length-items-widths pieces ∙ (widths-facts pieces).0

  pub to_units-units_of :
      (pieces : List (Out F E T M)) (n : ℕ) → to_units pieces n ≡ units_of (widths pieces) n
  unfolding to_units
  to_units-units_of pieces n = units_loop-units_of pieces n 0 ∙ omega arith

-- Characters take up units.
pub units_of-grows :
    (ws : List ℕ) (m n : ℕ)
    → All IsWidth ws
    → m ≤ n
    → n ≤ length ws
    → units_of ws m + (n - m) ≤ units_of ws n
unfolding units_of
units_of-grows [] m n h k l = omega arith
units_of-grows (w ∷ ws) zero zero h k l = omega arith
units_of-grows (w ∷ ws) zero (suc n) (h, hs) k l =
    omega (arith, h, units_of-zero ws, units_of-grows ws 0 n hs (omega arith) (omega (arith, l)))
units_of-grows (w ∷ ws) (suc m) zero h k l = absurd (omega (arith, k))
units_of-grows (w ∷ ws) (suc m) (suc n) (h, hs) k l =
    omega (arith, units_of-grows ws m n hs (omega (arith, k)) (omega (arith, l)))

pub units_of-all : (ws : List ℕ) → units_of ws (length ws) ≡ total ws
unfolding units_of total
units_of-all [] = refl
units_of-all (w ∷ ws) = ap (λ n. w + n) (units_of-all ws)

module _ {A : Type 0} where
  pub append-take : (n : ℕ) (xs : List A) → take n xs ++ skip n xs ≡ xs
  append-take zero xs = refl
  append-take (suc n) [] = refl
  append-take (suc n) (x ∷ xs) = ap (λ ts. x ∷ ts) (append-take n xs)

  pub take_all : (xs : List A) → take (length xs) xs ≡ xs
  take_all [] = refl
  take_all (x ∷ xs) = ap (λ ts. x ∷ ts) (take_all xs)

  pub skip_all : (xs : List A) → skip (length xs) xs ≡ []
  skip_all [] = refl
  skip_all (x ∷ xs) = skip_all xs
