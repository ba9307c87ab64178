-- ===== src/HtmlCore/Url.antt =====
-- `url_scheme` of ext/yrby/crates/html-core/src/lib.rs.
pub mod Browser
use yrby.Base.{
  ℕ, ◌+◌, ◌==◌, leb, if◌then◌else◌, Bool, true, false, not, ◌&&◌, ◌||◌, Option, none, some, [], ◌∷◌,
  ◌++◌, map, Str, keep, every, ◌≡◌, refl, ap, sym, ◌≡⟨◌⟩◌, ◌∎, arith,
}

-- `char::is_whitespace`: the characters with the property White_Space.
unfoldable pub is_whitespace : ℕ → Bool
is_whitespace c =
    (leb 9 c && leb c 13)
    || c == 32
    || c == 133
    || c == 160
    || c == 5760
    || (leb 8192 c && leb c 8202)
    || c == 8232
    || c == 8233
    || c == 8239
    || c == 8287
    || c == 12288

-- `char::is_control`.
unfoldable pub is_control : ℕ → Bool
is_control c = leb c 31 || (leb 127 c && leb c 159)

unfoldable pub is_ascii_uppercase : ℕ → Bool
is_ascii_uppercase c = leb b'A' c && leb c b'Z'

unfoldable pub is_ascii_alphabetic : ℕ → Bool
is_ascii_alphabetic c = (leb b'A' c && leb c b'Z') || (leb b'a' c && leb c b'z')

unfoldable pub is_ascii_alphanumeric : ℕ → Bool
unfolding is_ascii_alphabetic
is_ascii_alphanumeric c = is_ascii_alphabetic c || (leb b'0' c && leb c b'9')

unfoldable pub to_ascii_lowercase : ℕ → ℕ
to_ascii_lowercase c = if leb b'A' c && leb c b'Z' then c + 32 else c

-- `str::split_once` at a character.
unfoldable pub split_once : ℕ → Str → Option (Str × Str)
split_once c [] = none
split_once c (x ∷ s) =
    let rest = split_once c s in
    if x == c then some ([], s) else elim rest [ none ↦ none | some (a, b) ↦ some (x ∷ a, b) ]

abbrev seen : ℕ → Bool
seen c = not (is_whitespace c) && not (is_control c)

is_scheme_char : ℕ → Bool
unfolding is_ascii_alphanumeric
is_scheme_char c = is_ascii_alphanumeric c || c == b'+' || c == b'.' || c == b'-'

starts_with_letter : Str → Bool
unfolding is_ascii_alphabetic
starts_with_letter [] = false
starts_with_letter (c ∷ s) = is_ascii_alphabetic c

valid : Str → Bool
unfolding is_scheme_char
valid [] = true
valid (c ∷ s) = every is_scheme_char s

scheme_of : Option (Str × Str) → Option Str
unfolding starts_with_letter valid to_ascii_lowercase
scheme_of none = none
scheme_of (some (scheme, _)) =
    if starts_with_letter scheme && valid scheme then some (map to_ascii_lowercase scheme) else none

unfoldable pub url_scheme : Str → Option Str
unfolding is_whitespace is_control split_once scheme_of
url_scheme url = scheme_of (split_once b':' (keep seen url))

keep-append : (p : ℕ → Bool) (s t : Str) → keep p (s ++ t) ≡ keep p s ++ keep p t
keep-append p [] t = refl
keep-append p (c ∷ s) t = ground (arith, keep-append p s t)

unseen :
    (c : ℕ) (t : Str) → (is_whitespace c || is_control c) ≡ true → keep seen (c ∷ t) ≡ keep seen t
unseen c t h = ground arith

keep-without :
    (s t : Str) (c : ℕ)
    → (is_whitespace c || is_control c) ≡ true
    → keep seen (s ++ c ∷ t) ≡ keep seen (s ++ t)
keep-without s t c h =
    keep seen (s ++ c ∷ t)
    ≡⟨ keep-append seen s (c ∷ t) ⟩ keep seen s ++ keep seen (c ∷ t)
    ≡⟨ ap (λ r. keep seen s ++ r) (unseen c t h) ⟩ keep seen s ++ keep seen t
    ≡⟨ sym (keep-append seen s t) ⟩ keep seen (s ++ t) ∎

-- A whitespace or control character changes no URL's scheme, wherever it stands in the URL.
pub url_scheme-ignores :
    (s t : Str) (c : ℕ)
    → (is_whitespace c || is_control c) ≡ true
    → url_scheme (s ++ c ∷ t) ≡ url_scheme (s ++ t)
unfolding url_scheme
url_scheme-ignores s t c h = ap (λ k. scheme_of (split_once b':' k)) (keep-without s t c h)
