-- ===== src/Lexical/Block/Pushed.antt =====
-- What the pieces of a block emit, and the children that are pushed.
use yrby.Base.{
  ℕ, zero, suc, ◌≡◌, refl, subst, if◌then◌else◌, Bool, true, false, not, ◌&&◌, Option, none, some,
  List, [], ◌∷◌, ◌++◌, append_assoc, foldl, reverse, reverse-append, Str, codes, keep,
}
use mathlib.Core.List.{foldl-append}
use yrby.Yrs.{Yrs}
use yrby.HtmlCore.Segment.Tokens.{Tok, chars, chars-append}
use yrby.HtmlCore.Emitter.Emits.{Writes, Emits-pure, Emits-push_str, Emits-push, seq}
use yrby.HtmlCore.Escape.{escape_attr}
use yrby.HtmlCore.Markup.{open_tag, close_tag}
use yrby.HtmlCore.RuleTag.Writes.{value_pieces}
use yrby.HtmlCore.Work.{Work, open_node, close, push_opens}
use yrby.Lexical.Nodes.{block_children}
use yrby.Lexical.Block.{is_list, push_language, push_checked, push_child, push_block_children}
use yrby.Lexical.Block.Plan.{language_text, truth, checked_text}

pub Writes-push_language : (o : Option Str) → Writes (push_language o) (chars (language_text o))
Writes-push_language none = Emits-pure tt
Writes-push_language (some []) = Emits-pure tt
Writes-push_language (some (c ∷ lang)) =
    subst (Writes (push_language (some (c ∷ lang))))
      (value_pieces (codes " data-language=\"") (escape_attr (c ∷ lang)))
      (seq (Emits-push_str (codes " data-language=\"")) (seq (Emits-push_str _) (Emits-push b'"')))

pub Writes-push_checked : (o : Option Bool) → Writes (push_checked o) (chars (checked_text o))
Writes-push_checked none = Emits-pure tt
Writes-push_checked (some c) =
    subst (Writes (push_checked (some c))) (value_pieces (codes " aria-checked=\"") (truth c))
      (seq (Emits-push_str (codes " aria-checked=\"")) (seq (Emits-push_str _) (Emits-push b'"')))

pub tag_pieces :
    (tag attrs : Str) (body : List Tok)
    → chars (codes "<") ++ (chars tag ++ (chars attrs ++ (chars (codes ">") ++ body)))
      ≡ chars (open_tag tag attrs) ++ body
tag_pieces tag attrs body = simp (chars-append, append_assoc)

pub bare_pieces :
    (tag : Str) (body : List Tok)
    → chars (codes "<") ++ (chars tag ++ (chars (codes ">") ++ body))
      ≡ chars (open_tag tag []) ++ body
bare_pieces tag body = tag_pieces tag [] body

pub close_pieces :
    (tag : Str) → chars (codes "</") ++ (chars tag ++ chars (codes ">")) ≡ chars (close_tag tag)
close_pieces tag = simp chars-append

pub item_pieces :
    (a v : Str) (body : List Tok)
    → chars (codes "<li")
        ++ (chars a
            ++ (chars (codes " value=\"")
                ++ (chars v ++ (chars (codes "\"") ++ (chars (codes ">") ++ body)))))
      ≡ chars (open_tag (codes "li") (a ++ (codes " value=\"" ++ (v ++ codes "\"")))) ++ body
item_pieces a v body = simp (chars-append, append_assoc)

module _ (y : Yrs) where
  -- The loop with its `continue` pushes the children that are kept.
  kept_lists :
      (left : ℕ) (cs : List y.Text) (stack : List (Work y.Text))
      → foldl (push_child y true left) stack (reverse cs)
        ≡ foldl (λ st child. open_node child left ∷ st) stack (reverse (keep (is_list y) cs))
  kept_lists left [] stack = refl
  kept_lists left (c ∷ cs) stack =
      rw (reverse-append (c ∷ []) cs, foldl-append, kept_lists left cs stack)
        (at_child (is_list y c))
    where
      at_child :
          (b : Bool)
          → (if true && not b
              then foldl
                  (λ st child. open_node child left ∷ st)
                  stack
                  (reverse (keep (is_list y) cs))
              else open_node c left
                ∷ foldl
                    (λ st child. open_node child left ∷ st)
                    stack
                    (reverse (keep (is_list y) cs)))
            ≡ foldl
                (λ st child. open_node child left ∷ st)
                stack
                (reverse (if b then c ∷ keep (is_list y) cs else keep (is_list y) cs))
      at_child true = rw (reverse-append (c ∷ []) (keep (is_list y) cs), foldl-append) refl
      at_child false = refl

  pub push_block_children-lists :
      (t : y.Text) (left : ℕ) (s : Str) (stack : List (Work y.Text))
      → push_block_children y t left s true stack
        ≡ push_opens left (keep (is_list y) (block_children y t)) (close s ∷ stack)
  unfolding push_block_children push_opens
  push_block_children-lists t zero s stack = refl
  push_block_children-lists t (suc left) s stack =
      kept_lists left (block_children y t) (close s ∷ stack)

  pub push_block_children-all :
      (t : y.Text) (left : ℕ) (s : Str) (stack : List (Work y.Text))
      → push_block_children y t left s false stack
        ≡ push_opens left (block_children y t) (close s ∷ stack)
  unfolding push_block_children push_opens
  push_block_children-all t zero s stack = refl
  push_block_children-all t (suc left) s stack = refl
