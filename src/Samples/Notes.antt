-- ===== src/Samples/Notes.antt =====
-- A small Lexical document: a paragraph with formatted text, a tab, a line break, a link and a
-- mention, a list with a nested list, and a decorator.
use yrby.Base.{ℕ, Option, none, some, List, [], ◌∷◌, Str, codes, arith, get, true, false}
use yrby.Base.Int.{pos}
use yrby.Yrs.{Yrs, Any, int, Out, any, y_map, y_xml_element, y_xml_text, element, text}
use yrby.HtmlCore.Template.{lit, ref, declarative, callback, Rules, inline, blocks}
use yrby.HtmlCore.Markup.Named.{IsNamed}

pub data NoteText : Type 0 where
  greeting website mention tasks task nested deep_task : NoteText

pub data NoteElement : Type 0 where
  separator : NoteElement

pub data NoteMap : Type 0 where
  bold_run tab_run line_break : NoteMap

abbrev NoteOut : Type 0
NoteOut = Out (Unit {0}) NoteElement NoteText NoteMap

abbrev string : Str → NoteOut
string s = any (Any.string s)

abbrev typed : Str → List (Str × NoteOut)
typed ty = (codes "__type", string ty) ∷ []

abbrev note_attributes : NoteText → List (Str × NoteOut)
note_attributes greeting = typed (codes "paragraph")
note_attributes website =
    (codes "__type", string (codes "link"))
    ∷ (codes "__url", string (codes "javascript:x"))
    ∷ (codes "__title", string (codes "a\"b"))
    ∷ []
note_attributes mention = typed (codes "mention")
note_attributes tasks = typed (codes "list")
note_attributes task =
    (codes "__type", string (codes "listitem"))
    ∷ (codes "__checked", any (Any.bool true))
    ∷ (codes "__value", any (Any.number (int (pos 2))))
    ∷ []
note_attributes nested =
    (codes "__type", string (codes "list")) ∷ (codes "__tag", string (codes "ol")) ∷ []
note_attributes deep_task = typed (codes "listitem")

abbrev note_map : NoteMap → List (Str × NoteOut)
note_map bold_run =
    (codes "__type", string (codes "text"))
    ∷ (codes "__format", any (Any.number (int (pos 1))))
    ∷ []
note_map tab_run = typed (codes "tab")
note_map line_break = typed (codes "linebreak")

abbrev run : NoteOut → NoteOut × Option (List (Str × Any (Unit {0})))
run out = (out, none)

abbrev note_diff : NoteText → List (NoteOut × Option (List (Str × Any (Unit {0}))))
note_diff greeting =
    run (y_map bold_run)
    ∷ run (string (codes "a<b"))
    ∷ run (y_map tab_run)
    ∷ run (string (codes "\t"))
    ∷ run (y_map line_break)
    ∷ run (y_xml_text website)
    ∷ run (y_xml_text mention)
    ∷ []
note_diff website = run (string (codes "site")) ∷ []
note_diff mention = run (string (codes "@me")) ∷ []
note_diff tasks = run (y_xml_text task) ∷ []
note_diff task =
    run (string (codes "do")) ∷ run (y_xml_text nested) ∷ run (y_xml_element separator) ∷ []
note_diff nested = run (y_xml_text deep_task) ∷ []
note_diff deep_task = run (string (codes "it")) ∷ []

abbrev pub notes : Yrs
notes = record {
  Float = Unit {0};
  is_whole = λ _. true;
  to_i64 = λ _. pos 0;
  to_u32 = λ _. 0;
  is_positive = λ _. false;
  format_float = λ _. codes "0";
  to_json = λ _. codes "null";
  json_string = λ s. some (codes "\"\"");
  Element = NoteElement;
  Text = NoteText;
  Fragment = ℕ;
  YMap = NoteMap;
  tag = λ _. codes "UNDEFINED";
  children = λ _. [];
  element_string = λ _. codes "<el>";
  attribute = λ _. get (typed (codes "horizontalrule"));
  attributes = λ _. typed (codes "horizontalrule");
  diff = note_diff;
  text_attribute = λ t. get (note_attributes t);
  text_attributes = note_attributes;
  text_string = λ _. [];
  map_get = λ m. get (note_map m);
  roots = λ _. text greeting ∷ text tasks ∷ element separator ∷ [];
  fragment_string = λ _. [];
}

-- A callback node for `mention`, and a `<section>` for `list`.
abbrev pub note_rules : Rules
note_rules = record {
  nodes =
      (codes "mention", callback inline)
      ∷ (
        codes "list",
        declarative (codes "section") false
            ((codes "class", lit (codes "list ") ∷ ref (codes "tag") ∷ []) ∷ []) none blocks,
      )
      ∷ [];
  marks = [];
}

pub note_rules-IsNamed : IsNamed note_rules
note_rules-IsNamed = record {
  nodes = (tt, ((ground arith, ground arith, ground arith), tt));
  marks = tt;
}
