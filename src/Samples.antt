-- ===== src/Samples.antt =====
-- A small document and small rules, on which the theorems are applied.
pub mod Notes
use yrby.Base.{ℕ, Option, none, some, List, [], ◌∷◌, Str, codes, arith, get, true, false}
use yrby.Base.Int.{pos}
use yrby.Yrs.{Yrs, Any, int, empty, Out, any, XmlOut, element, text}
use yrby.HtmlCore.Template.{lit, ref, declarative, callback, Rules, inline}
use yrby.HtmlCore.Markup.Named.{IsNamed}

-- The elements and the texts of the document.
pub data SampleElement : Type 0 where
  opening quote callout_node title badge line : SampleElement

pub data SampleText : Type 0 where
  marked plain : SampleText

abbrev SampleOut : Type 0
SampleOut = Out (Unit {0}) SampleElement SampleText ℕ

abbrev sample_tag : SampleElement → Str
sample_tag opening = codes "paragraph"
sample_tag quote = codes "blockquote"
sample_tag callout_node = codes "callout"
sample_tag title = codes "heading"
sample_tag badge = codes "badge"
sample_tag line = codes "hardBreak"

abbrev sample_children : SampleElement → List (XmlOut SampleElement SampleText ℕ)
sample_children opening = text marked ∷ element line ∷ element badge ∷ []
sample_children quote = element callout_node ∷ element title ∷ []
sample_children callout_node = text plain ∷ []
sample_children title = text plain ∷ []
sample_children badge = text plain ∷ []
sample_children line = []

abbrev sample_attributes : SampleElement → List (Str × SampleOut)
sample_attributes callout_node = (codes "kind", any (Any.string (codes "a\"b"))) ∷ []
sample_attributes title = (codes "level", any (Any.number (int (pos 2)))) ∷ []
sample_attributes _ = []

abbrev sample_diff : SampleText → List (SampleOut × Option (List (Str × Any (Unit {0}))))
sample_diff marked =
    (any (Any.string (codes "a<b")), none)
    ∷ (any (Any.string (codes "bold")), some ((codes "bold", Any.map empty) ∷ []))
    ∷ (
      any (Any.string (codes "both")),
      some ((codes "italic", Any.map empty) ∷ (codes "bold", Any.map empty) ∷ []),
    )
    ∷ []
sample_diff plain = (any (Any.string (codes "text")), none) ∷ []

abbrev pub sample : Yrs
sample = record {
  Float = Unit {0};
  is_whole = λ _. true;
  to_i64 = λ _. pos 0;
  to_u32 = λ _. 0;
  is_positive = λ _. false;
  format_float = λ _. codes "0";
  to_json = λ _. codes "null";
  json_string = λ s. some (codes "\"\"");
  Element = SampleElement;
  Text = SampleText;
  Fragment = ℕ;
  YMap = ℕ;
  tag = sample_tag;
  children = sample_children;
  element_string = λ _. codes "<el>";
  attribute = λ e. get (sample_attributes e);
  attributes = sample_attributes;
  diff = sample_diff;
  text_attribute = λ _ _. none;
  text_attributes = λ _. [];
  text_string = λ _. [];
  map_get = λ _ _. none;
  roots = λ _. element opening ∷ element quote ∷ [];
  fragment_string = λ _. [];
}

-- A callback node for `callout`, and a `<span class="badge">` for `badge`.
abbrev pub sample_rules : Rules
sample_rules = record {
  nodes =
      (codes "callout", callback inline)
      ∷ (
        codes "badge",
        declarative (codes "span") false
            ((codes "class", lit (codes "badge ") ∷ ref (codes "color") ∷ []) ∷ []) none inline,
      )
      ∷ [];
  marks = [];
}

pub sample_rules-IsNamed : IsNamed sample_rules
sample_rules-IsNamed = record {
  nodes = (tt, ((ground arith, ground arith, ground arith), tt));
  marks = tt;
}
