-- ===== src/Read/Lines/Kept.antt =====
-- The lines of a block hold all its text, and none of them is empty.
use yrby.Base.{
  ℕ, zero, suc, ◌<◌, ◌≡◌, ◌≢◌, ◌∙◌, refl, sym, subst, ap, if◌then◌else◌, Bool, true, false, Option,
  some, List, [], ◌∷◌, ◌++◌, append-nil, append_assoc, Str, codes, is_one_of, All, All-append,
  concat_map, concat_map-append, arith,
}
use yrby.Yrs.{Yrs, Stored, Any, any, y_map, y_xml_element, y_xml_text, other, Output}
use yrby.Read.Lines.{
  is_inline_lexical_type, break_text, push_line, given, or_none, lexical_type, lexical_map_type,
  lexical_decorator_text, inline_pieces, inline_lexical_text, block_pieces, walk_lexical_block,
}

abbrev pub all_of : List Str → Str
all_of = concat_map (λ line. line)

All-weaken :
    {A : Type 0} (P Q : A → Type 0) (xs : List A) → ((x : A) → P x → Q x) → All P xs → All Q xs
All-weaken P Q [] f h = tt
All-weaken P Q (x ∷ xs) f (h, hs) = (f x h, All-weaken P Q xs f hs)

-- The lines that code adds to `out` show `shown`, and none is empty.
pub record Adds (m : Option (List Str)) (out : List Str) (shown : Str) : Type 0 where
  pub lines : List Str
  pub returned : m ≡ some (out ++ lines)
  pub joined : all_of lines ≡ shown
  pub filled : All (λ line. line ≢ []) lines

module _ (y : Yrs) where
  abbrev pub nested_texts : List (Output y × Option (List (Str × Stored y))) → List y.Text
  nested_texts [] = []
  nested_texts ((y_xml_text child, _) ∷ diff) = child ∷ nested_texts diff
  nested_texts ((_, _) ∷ diff) = nested_texts diff

  -- Texts nest finitely deep: each holds only texts of a lower rank.
  abbrev pub IsRank : (y.Text → ℕ) → Type 0
  IsRank rank = (t : y.Text) → All (λ c. rank c < rank t) (nested_texts (y.diff t))

  -- The text of an inline element, and of a block, by recursion.
  abbrev pub inline_shown_at : (y.Text → Str) → Output y → Str
  inline_shown_at deeper (any (Any.string s)) = s
  inline_shown_at deeper (y_xml_text child) = deeper child
  inline_shown_at deeper (y_map m) = break_text (lexical_map_type y m)
  inline_shown_at deeper _ = []

  unfoldable pub inline_shown : ℕ → y.Text → Str
  inline_shown zero t = []
  inline_shown (suc levels) t =
      concat_map
        (λ (piece : Output y × Option (List (Str × Stored y))).
          inline_shown_at (inline_shown levels) piece.0)
        (y.diff t)

  abbrev pub child_shown : (y.Text → Str) → (y.Text → Str) → y.Text → Str
  child_shown inline deeper child =
      if is_one_of (codes "linebreak" ∷ codes "tab" ∷ []) (lexical_type y child)
      then break_text (lexical_type y child)
      else if is_inline_lexical_type (lexical_type y child)
      then inline child
      else deeper child

  abbrev pub block_shown_at : (y.Text → Str) → (y.Text → Str) → Output y → Str
  block_shown_at inline deeper (any (Any.string s)) = s
  block_shown_at inline deeper (y_map m) = break_text (lexical_map_type y m)
  block_shown_at inline deeper (y_xml_text child) = child_shown inline deeper child
  block_shown_at inline deeper (y_xml_element e) = or_none y (lexical_decorator_text y e)
  block_shown_at inline deeper _ = []

  unfoldable pub block_shown : ℕ → y.Text → Str
  block_shown zero t = []
  block_shown (suc levels) t =
      concat_map
        (λ (piece : Output y × Option (List (Str × Stored y))).
          block_shown_at (inline_shown levels) (block_shown levels) piece.0)
        (y.diff t)

  abbrev AddsText : (y.Text → Str → Option Str) → (y.Text → Str) → y.Text → Type 0
  AddsText inline g child = (buf : Str) → inline child buf ≡ some (buf ++ g child)

  inline_pieces-shown :
      (inline : y.Text → Str → Option Str) (g : y.Text → Str)
      (diff : List (Output y × Option (List (Str × Stored y)))) (buf : Str)
      → All (AddsText inline g) (nested_texts diff)
      → inline_pieces y inline diff buf
        ≡ some (
            buf
            ++ concat_map
                (λ (piece : Output y × Option (List (Str × Stored y))). inline_shown_at g piece.0)
                diff)
  unfolding inline_pieces
  inline_pieces-shown inline g [] buf h = ap some (sym (append-nil buf))
  inline_pieces-shown inline g ((any (Any.string s), a) ∷ diff) buf h =
      inline_pieces-shown inline g diff (buf ++ s) h ∙ ap some (append_assoc buf s _)
  inline_pieces-shown inline g ((y_map m, a) ∷ diff) buf h =
      inline_pieces-shown inline g diff (buf ++ break_text (lexical_map_type y m)) h
      ∙ ap some (append_assoc buf _ _)
  inline_pieces-shown inline g ((y_xml_text child, a) ∷ diff) buf (hc, h) = rw (hc buf) (
      inline_pieces-shown inline g diff (buf ++ g child) h ∙ ap some (append_assoc buf (g child) _))
  inline_pieces-shown inline g ((y_xml_element e, a) ∷ diff) buf h =
      inline_pieces-shown inline g diff buf h
  inline_pieces-shown inline g ((other, a) ∷ diff) buf h = inline_pieces-shown inline g diff buf h
  inline_pieces-shown inline g ((any _, a) ∷ diff) buf h = inline_pieces-shown inline g diff buf h

  inline_lexical_text-shown :
      (rank : y.Text → ℕ) (levels : ℕ) (t : y.Text) (buf : Str)
      → IsRank rank
      → rank t < levels
      → inline_lexical_text y levels t buf ≡ some (buf ++ inline_shown levels t)
  unfolding inline_lexical_text inline_shown
  inline_lexical_text-shown rank zero t buf ranked h = elim h [ ]
  inline_lexical_text-shown rank (suc levels) t buf ranked h =
      inline_pieces-shown (inline_lexical_text y levels) (inline_shown levels) (y.diff t) buf (
        All-weaken (λ c. rank c < rank t)
          (AddsText (inline_lexical_text y levels) (inline_shown levels)) (nested_texts (y.diff t))
          (λ c k b. inline_lexical_text-shown rank levels c b ranked (omega (arith, h, k)))
          (ranked t))

  Adds-push_line : (out : List Str) (line : Str) → Adds (some (push_line out line)) out line
  Adds-push_line out [] = record {
    lines = [];
    returned = ap some (sym (append-nil out));
    joined = refl;
    filled = tt;
  }
  Adds-push_line out (c ∷ line) = record {
    lines = (c ∷ line) ∷ [];
    returned = refl;
    joined = append-nil (c ∷ line);
    filled = ((λ e. cc), tt);
  }

  -- One addition after another.
  Adds-given :
      (m : Option (List Str)) (k : List Str → Option (List Str)) (out : List Str) (s u : Str)
      → Adds m out s
      → ((longer : List Str) → Adds (k longer) longer u)
      → Adds (given m k) out (s ++ u)
  Adds-given m k out s u p q =
      let r = q (out ++ p.lines) in
      record {
        lines = p.lines ++ r.lines;
        returned =
            ap (λ o. given o k) p.returned
            ∙ r.returned
            ∙ ap some (append_assoc out p.lines r.lines);
        joined = concat_map-append (λ line. line) p.lines r.lines ∙ rw (p.joined, r.joined) refl;
        filled = All-append (λ line. line ≢ []) p.lines r.lines p.filled r.filled;
      }

  if-Adds :
      (b : Bool) (m n : Option (List Str)) (out : List Str) (line rest x z : Str)
      → Adds m out (line ++ (x ++ rest))
      → Adds n out (line ++ (z ++ rest))
      → Adds (if b then m else n) out (line ++ ((if b then x else z) ++ rest))
  if-Adds true m n out line rest x z p q = p
  if-Adds false m n out line rest x z p q = q

  regrouped :
      (m : Option (List Str)) (out : List Str) (line s rest : Str)
      → Adds m out ((line ++ s) ++ rest)
      → Adds m out (line ++ (s ++ rest))
  regrouped m out line s rest p = subst (Adds m out) (append_assoc line s rest) p

  abbrev AddsLines : (y.Text → List Str → Option (List Str)) → (y.Text → Str) → y.Text → Type 0
  AddsLines deeper g child = (out : List Str) → Adds (deeper child out) out (g child)

  module _ (inline : y.Text → Str → Option Str) (deeper : y.Text → List Str → Option (List Str))
      (f g : y.Text → Str) where
    abbrev rest_shown : List (Output y × Option (List (Str × Stored y))) → Str
    rest_shown =
        concat_map
          (λ (piece : Output y × Option (List (Str × Stored y))). block_shown_at f g piece.0)

    block_pieces-Adds :
        (diff : List (Output y × Option (List (Str × Stored y)))) (line : Str) (out : List Str)
        → All (AddsText inline f) (nested_texts diff)
        → All (AddsLines deeper g) (nested_texts diff)
        → Adds (block_pieces y inline deeper diff line out) out (line ++ rest_shown diff)
    unfolding block_pieces
    block_pieces-Adds [] line out h k =
        subst (Adds (some (push_line out line)) out) (sym (append-nil line))
          (Adds-push_line out line)
    block_pieces-Adds ((any (Any.string s), a) ∷ diff) line out h k =
        regrouped _ out line s (rest_shown diff) (block_pieces-Adds diff (line ++ s) out h k)
    block_pieces-Adds ((y_map m, a) ∷ diff) line out h k =
        let s = break_text (lexical_map_type y m) in
        regrouped _ out line s (rest_shown diff) (block_pieces-Adds diff (line ++ s) out h k)
    block_pieces-Adds ((y_xml_element e, a) ∷ diff) line out h k =
        let s = or_none y (lexical_decorator_text y e) in
        regrouped _ out line s (rest_shown diff) (block_pieces-Adds diff (line ++ s) out h k)
    block_pieces-Adds ((other, a) ∷ diff) line out h k = block_pieces-Adds diff line out h k
    block_pieces-Adds ((any _, a) ∷ diff) line out h k = block_pieces-Adds diff line out h k
    block_pieces-Adds ((y_xml_text child, a) ∷ diff) line out (hc, h) (kc, k) =
        let s = break_text (lexical_type y child) in
        if-Adds (is_one_of (codes "linebreak" ∷ codes "tab" ∷ []) (lexical_type y child)) _ _ out
          line (rest_shown diff) s _
          (regrouped _ out line s (rest_shown diff) (block_pieces-Adds diff (line ++ s) out h k))
          (if-Adds (is_inline_lexical_type (lexical_type y child)) _ _ out line (rest_shown diff)
            (f child) (g child)
            (rw (hc line) (
              regrouped _ out line (f child) (rest_shown diff)
                (block_pieces-Adds diff (line ++ f child) out h k)))
            (Adds-given (some (push_line out line))
              (λ o. given (deeper child o) (λ lines. block_pieces y inline deeper diff [] lines))
              out line (g child ++ rest_shown diff) (Adds-push_line out line)
              (λ o.
                Adds-given (deeper child o) (λ lines. block_pieces y inline deeper diff [] lines) o
                  (g child) (rest_shown diff) (kc o)
                  (λ lines. block_pieces-Adds diff [] lines h k))))

  -- Where texts nest finitely deep, and the levels exceed a block's rank, the walk over the block
  -- returns, the lines that it adds hold all the block's text in order, and none of them is empty.
  pub walk_lexical_block-Adds :
      (rank : y.Text → ℕ) (levels : ℕ) (t : y.Text) (out : List Str)
      → IsRank rank
      → rank t < levels
      → Adds (walk_lexical_block y levels t out) out (block_shown levels t)
  unfolding walk_lexical_block block_shown
  walk_lexical_block-Adds rank zero t out ranked h = elim h [ ]
  walk_lexical_block-Adds rank (suc levels) t out ranked h =
      block_pieces-Adds (inline_lexical_text y levels) (walk_lexical_block y levels)
        (inline_shown levels) (block_shown levels) (y.diff t) [] out
        (All-weaken (λ c. rank c < rank t)
          (AddsText (inline_lexical_text y levels) (inline_shown levels)) (nested_texts (y.diff t))
          (λ c k b. inline_lexical_text-shown rank levels c b ranked (omega (arith, h, k)))
          (ranked t))
        (All-weaken (λ c. rank c < rank t)
          (AddsLines (walk_lexical_block y levels) (block_shown levels)) (nested_texts (y.diff t))
          (λ c k o. walk_lexical_block-Adds rank levels c o ranked (omega (arith, h, k)))
          (ranked t))
