-- ===== src/HtmlCore/Url/Browser.antt =====
-- The scheme that a browser reads from a URL, by the rules of the URL standard, which are not in
-- the code: leading spaces and control characters are dropped, tabs and newlines are dropped
-- wherever they stand, and a scheme is a letter, then letters, digits, `+`, `-` and `.`, up to the
-- first colon, in lower case.
use yrby.Base.{
  ℕ, ◌+◌, ◌≤◌, ◌≡◌, ◌==◌, ◌&&◌, ◌∙◌, ap, refl, Bool, true, false, some, [], ◌∷◌, map, Str, keep,
  every, arith,
}
use yrby.HtmlCore.Url.{
  is_whitespace, is_control, is_ascii_alphabetic, is_ascii_alphanumeric, to_ascii_lowercase,
  split_once, seen, is_scheme_char, starts_with_letter, valid, scheme_of, url_scheme,
}

-- A letter, and that letter in lower case.
pub data IsLetter : ℕ → ℕ → Type 0 where
  small : (c : ℕ) → 97 ≤ c → c ≤ 122 → IsLetter c c
  capital : (c : ℕ) → 65 ≤ c → c ≤ 90 → IsLetter c (c + 32)

-- A character behind a scheme's first.
pub data IsSchemeChar : ℕ → ℕ → Type 0 where
  letter : (c l : ℕ) → IsLetter c l → IsSchemeChar c l
  digit : (c : ℕ) → 48 ≤ c → c ≤ 57 → IsSchemeChar c c
  plus : IsSchemeChar 43 43
  dash : IsSchemeChar 45 45
  dot : IsSchemeChar 46 46

pub data IsDropped : ℕ → Type 0 where
  tab : IsDropped 9
  line_feed : IsDropped 10
  carriage_return : IsDropped 13

-- Behind the first character of a scheme, the rest of it, in lower case.
pub data ReadsOn : Str → Str → Type 0 where
  drops : (c : ℕ) (s scheme : Str) → IsDropped c → ReadsOn s scheme → ReadsOn (c ∷ s) scheme
  next :
      (c l : ℕ) (s scheme : Str)
      → IsSchemeChar c l
      → ReadsOn s scheme
      → ReadsOn (c ∷ s) (l ∷ scheme)
  colon : (s : Str) → ReadsOn (58 ∷ s) []

-- A browser reads the scheme from the URL.
pub data Reads : Str → Str → Type 0 where
  trims : (c : ℕ) (s scheme : Str) → c ≤ 32 → Reads s scheme → Reads (c ∷ s) scheme
  starts : (c l : ℕ) (s scheme : Str) → IsLetter c l → ReadsOn s scheme → Reads (c ∷ s) (l ∷ scheme)

IsLetter-facts :
    (c l : ℕ)
    → IsLetter c l
    → (seen c ≡ true) × (is_ascii_alphabetic c ≡ true) × (to_ascii_lowercase c ≡ l)
unfolding is_whitespace is_control is_ascii_alphabetic to_ascii_lowercase
IsLetter-facts _ _ (small c h k) = ground arith
IsLetter-facts _ _ (capital c h k) = ground arith

IsSchemeChar-facts :
    (c l : ℕ)
    → IsSchemeChar c l
    → (seen c ≡ true) × (is_scheme_char c ≡ true) × (to_ascii_lowercase c ≡ l) × (¬ (c ≡ 58))
unfolding is_whitespace is_control is_ascii_alphabetic is_ascii_alphanumeric is_scheme_char
    to_ascii_lowercase
IsSchemeChar-facts _ _ (letter _ _ (small c h k)) = ground arith
IsSchemeChar-facts _ _ (letter _ _ (capital c h k)) = ground arith
IsSchemeChar-facts _ _ (digit c h k) = ground arith
IsSchemeChar-facts _ _ plus = (refl, refl, refl, omega arith)
IsSchemeChar-facts _ _ dash = (refl, refl, refl, omega arith)
IsSchemeChar-facts _ _ dot = (refl, refl, refl, omega arith)

-- What the code splits off behind the first character.
abbrev IsSplit : Str → Str → Type 0
IsSplit s scheme =
    (raw : Str) × (tail : Str) × (split_once 58 (keep seen s) ≡ some (raw, tail))
    × (every is_scheme_char raw ≡ true)
    × (map to_ascii_lowercase raw ≡ scheme)

split-seen :
    (c : ℕ) (t raw tail : Str)
    → seen c ≡ true
    → ¬ (c ≡ 58)
    → split_once 58 (keep seen t) ≡ some (raw, tail)
    → split_once 58 (keep seen (c ∷ t)) ≡ some (c ∷ raw, tail)
unfolding split_once
split-seen c t raw tail kept other e = rw (kept, no_colon, e) refl
  where
    no_colon : (c == 58) ≡ false
    no_colon = ground (arith, other)

both-true : {a b : Bool} → a ≡ true → b ≡ true → (a && b) ≡ true
both-true h k = λ i. h i && k i

ReadsOn-IsSplit : (s scheme : Str) → ReadsOn s scheme → IsSplit s scheme
unfolding split_once is_whitespace is_control
ReadsOn-IsSplit _ _ (drops _ t scheme tab h) = ReadsOn-IsSplit t scheme h
ReadsOn-IsSplit _ _ (drops _ t scheme line_feed h) = ReadsOn-IsSplit t scheme h
ReadsOn-IsSplit _ _ (drops _ t scheme carriage_return h) = ReadsOn-IsSplit t scheme h
ReadsOn-IsSplit _ _ (next c l t rest k h) =
    let (kept, valid, lower, other) = IsSchemeChar-facts _ _ k in
    let (raw, tail, e, v, m) = ReadsOn-IsSplit t rest h in
    (c ∷ raw, tail, split-seen c t raw tail kept other e, both-true valid v, λ i. lower i ∷ m i)
ReadsOn-IsSplit _ _ (colon t) = ([], keep seen t, refl, refl, refl)

-- Whatever scheme a browser reads from a URL, `url_scheme` finds the same.
pub url_scheme-Reads : (url scheme : Str) → Reads url scheme → url_scheme url ≡ some scheme
unfolding url_scheme scheme_of starts_with_letter valid is_whitespace is_control
url_scheme-Reads _ _ (trims c s scheme h k) =
    ap (λ u. scheme_of (split_once 58 u)) (dropped c h) ∙ url_scheme-Reads s scheme k
  where
    dropped : (c : ℕ) → c ≤ 32 → keep seen (c ∷ s) ≡ keep seen s
    dropped c h = ground arith
url_scheme-Reads _ _ (starts c l s scheme h k) =
    let (_, first, _) = IsLetter-facts c l h in
    let (kept, _, lower, other) = IsSchemeChar-facts c l (letter c l h) in
    let (raw, tail, e, v, m) = ReadsOn-IsSplit s scheme k in
    ap scheme_of (split-seen c s raw tail kept other e) ∙ rw (first, v) (λ i. some (lower i ∷ m i))
