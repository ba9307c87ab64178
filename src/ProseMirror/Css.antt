-- ===== src/ProseMirror/Css.antt =====
-- `text_style_css` and `hex_to_rgb`: the `style` string of a textStyle mark.
pub mod Hex
use yrby.Base.{
  ℕ, ◌+◌, ◌-◌, ◌*◌, ◌==◌, str_le, ltb, leb, if◌then◌else◌, Bool, true, false, Option, none, some,
  List, [], ◌∷◌, ◌++◌, Str, codes, every, ◌&&◌,
}
use yrby.Base.Decimal.{show_ℕ}
use yrby.Base.Sort.{sort_by_key}
use yrby.Yrs.{Any, Entries}
use yrby.HtmlCore.Url.{is_ascii_uppercase, to_ascii_lowercase}

-- The entries of an `Any::Map`.
unfoldable pub entries : {F : Type 0} → Entries F → List (Str × Any F)
entries Entries.empty = []
entries (Entries.entry k a rest) = (k, a) ∷ entries rest

-- The entries that are strings.
unfoldable pub string_entries : {F : Type 0} → List (Str × Any F) → List (Str × Str)
string_entries [] = []
string_entries ((k, Any.string s) ∷ m) = (k, s) ∷ string_entries m
string_entries ((k, _) ∷ m) = string_entries m

unfoldable pub kebab : Str → Str
kebab [] = []
kebab (c ∷ s) =
    (if is_ascii_uppercase c then b'-' ∷ to_ascii_lowercase c ∷ [] else c ∷ []) ++ kebab s

-- `char::to_digit(16)`
unfoldable pub hex_digit : ℕ → Option ℕ
hex_digit c =
    if leb b'0' c && leb c b'9'
    then some (c - 48)
    else if leb b'a' c && leb c b'f'
    then some (c - 87)
    else if leb b'A' c && leb c b'F'
    then some (c - 55)
    else none

abbrev times16 : ℕ → Option ℕ → Option ℕ
times16 acc none = none
times16 acc (some d) = if ltb 255 (acc * 16 + d) then none else some (acc * 16 + d)

hex_digits : Option ℕ → Str → Option ℕ
unfolding hex_digit
hex_digits acc [] = acc
hex_digits none (c ∷ s) = none
hex_digits (some acc) (c ∷ s) = hex_digits (times16 acc (hex_digit c)) s

-- `u8::from_str_radix(s, 16).ok()`: an optional plus sign, then at least one digit.
unfoldable pub from_str_radix : Str → Option ℕ
unfolding hex_digits
from_str_radix [] = none
from_str_radix (c ∷ []) = hex_digits (some 0) (c ∷ [])
from_str_radix (c ∷ d ∷ s) = hex_digits (some 0) (if c == b'+' then d ∷ s else c ∷ d ∷ s)

abbrev pub rgb_text : ℕ → ℕ → ℕ → Str
rgb_text r g b =
    codes "rgb("
    ++ (show_ℕ r ++ (codes ", " ++ (show_ℕ g ++ (codes ", " ++ (show_ℕ b ++ codes ")")))))

abbrev rgb : Option ℕ → Option ℕ → Option ℕ → Option Str
rgb (some r) (some g) (some b) = some (rgb_text r g b)
rgb _ _ _ = none

-- The part behind `#`, which is ASCII.
hex_channels : Str → Option Str
hex_channels (r ∷ g ∷ b ∷ []) =
    rgb (from_str_radix (r ∷ r ∷ [])) (from_str_radix (g ∷ g ∷ [])) (from_str_radix (b ∷ b ∷ []))
hex_channels (r ∷ r' ∷ g ∷ g' ∷ b ∷ b' ∷ []) =
    rgb (from_str_radix (r ∷ r' ∷ [])) (from_str_radix (g ∷ g' ∷ [])) (from_str_radix (b ∷ b' ∷ []))
hex_channels _ = none

unfoldable pub hex_to_rgb : Str → Option Str
unfolding hex_channels
hex_to_rgb [] = none
hex_to_rgb (c ∷ hex) =
    if c == b'#' then (if every (λ x. ltb x 128) hex then hex_channels hex else none) else none

abbrev or_else : Option Str → Str → Str
or_else none value = value
or_else (some s) value = s

abbrev space_after : Str → Str
space_after [] = []
space_after (c ∷ s) = codes " "

css_pairs : Str → List (Str × Str) → Str
unfolding kebab hex_to_rgb
css_pairs css [] = css
css_pairs css ((key, value) ∷ pairs) =
    css_pairs
      (css
        ++ (space_after css
            ++ (kebab key ++ (codes ": " ++ (or_else (hex_to_rgb value) value ++ codes ";")))))
      pairs

unfoldable pub text_style_css : {F : Type 0} → Entries F → Str
unfolding css_pairs sort_by_key string_entries entries
text_style_css style = css_pairs [] (sort_by_key (string_entries (entries style)))
