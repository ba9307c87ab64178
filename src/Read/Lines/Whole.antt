-- ===== src/Read/Lines/Whole.antt =====
-- The text of a whole document.
use yrby.Base.{ℕ, ◌<◌, ◌≡◌, if◌then◌else◌, Bool, Option, some, List, ◌++◌, Str, codes}
use yrby.Yrs.{Yrs, element, fragment, text, Node}
use yrby.Read.Lines.{is_missing, or_none, lexical_decorator_text}
use yrby.Read.Lines.Kept.{all_of, block_shown}

-- The lines that code adds to `out` show `shown`.
record Shows (m : Option (List Str)) (out : List Str) (shown : Str) : Type 0 where
  lines : List Str
  returned : m ≡ some (out ++ lines)
  joined : all_of lines ≡ shown

module _ (y : Yrs) (rank : y.Text → ℕ) (levels : ℕ) where
  abbrev pub element_shown : Bool → y.Element → Str
  element_shown missing e =
      if missing then y.element_string e else or_none y (lexical_decorator_text y e)

  -- What a child of the root has as text.
  abbrev pub root_shown : Node y → Str
  root_shown (text t) = block_shown y levels t
  root_shown (element e) = element_shown (is_missing y (y.attribute e (codes "__type"))) e
  root_shown (fragment f) = y.fragment_string f

  -- The levels exceed the rank of a text.
  abbrev pub IsCovered : Node y → Type 0
  IsCovered (text t) = rank t < levels
  IsCovered _ = Unit
