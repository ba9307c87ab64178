-- ===== src/XmlText.antt =====
-- ext/yrby/src/xml_text.rs: a block of rich text, read and written through a handle.
pub mod Removal
use yrby.Base.{
  ℕ, ◌-◌, ◌==◌, ltb, if◌then◌else◌, Bool, true, false, Option, none, some, List, [], Str, codes,
  length, get_elem?,
}
use yrby.Base.Int.{ℤ}
use yrby.Base.Result.{Result, ok, err}
use yrby.Yrs.{Out}
use yrby.Shared.Index.{as_u32, element_index, delete_span}
use yrby.Shared.Units.{
  char_len, to_units, end_or_units, embedded_xml_texts, embedded_xml_text_index, ends_with_xml_text,
}

-- The yrs crate's `XmlText`s as the source uses them; `Block` is a reference to one, and `pieces`
-- are the contents of its diff.
pub record XmlTexts : Type 1 where
  pub Float : Type 0
  pub Element : Type 0
  pub Block : Type 0
  pub YMap : Type 0
  pub Store : Type 0
  pub Identity : Type 0
  pub resolve : Store → Identity → Option Block
  pub identity : Block → Identity
  pub pieces : Store → Block → List (Out Float Element Block YMap)
  pub len : Store → Block → ℕ
  pub get_string : Store → Block → Str
  pub insert : Store → Block → ℕ → Str → Store
  pub remove_range : Store → Block → ℕ → ℕ → Store

module _ (y : XmlTexts) where
  abbrev string_of : y.Store → Option y.Block → Str
  string_of s none = []
  string_of s (some x) = y.get_string s x

  unfoldable pub to_s : y.Store → y.Identity → Str
  to_s s id = string_of s (y.resolve s id)

  abbrev length_of : y.Store → Option y.Block → ℕ
  length_of s none = 0
  length_of s (some x) = char_len (y.pieces s x)

  unfoldable pub block_length : y.Store → y.Identity → ℕ
  block_length s id = length_of s (y.resolve s id)

  abbrev empty_of : y.Store → Option y.Block → Bool
  empty_of s none = true
  empty_of s (some x) = y.len s x == 0

  unfoldable pub is_empty : y.Store → y.Identity → Bool
  is_empty s id = empty_of s (y.resolve s id)

  abbrev count_of : y.Store → Option y.Block → ℕ
  count_of s none = 0
  count_of s (some x) = length (embedded_xml_texts (y.pieces s x))

  unfoldable pub xml_text_count : y.Store → y.Identity → ℕ
  xml_text_count s id = count_of s (y.resolve s id)

  abbrev identity_of : Option y.Block → Option y.Identity
  identity_of none = none
  identity_of (some x) = some (y.identity x)

  -- `blocks[n as usize]`, with `n` in range.
  abbrev block_at : List y.Block → Option ℕ → Option y.Identity
  block_at blocks none = none
  block_at blocks (some n) = identity_of (get_elem? blocks n)

  abbrev block_of : y.Store → Option y.Block → ℤ → Option y.Identity
  block_of s none n = none
  block_of s (some x) n =
      let blocks = embedded_xml_texts (y.pieces s x) in
      block_at blocks (element_index n (as_u32 (length blocks)))

  -- The identity that the handle keeps.
  unfoldable pub xml_text : y.Store → y.Identity → ℤ → Option y.Identity
  xml_text s id n = block_of s (y.resolve s id) n

  abbrev ending_of : y.Store → Option y.Block → Bool
  ending_of s none = false
  ending_of s (some x) = ends_with_xml_text (y.pieces s x)

  unfoldable pub ends_with_block : y.Store → y.Identity → Bool
  ends_with_block s id = ending_of s (y.resolve s id)

  -- What a write leaves, and what it returns or raises.
  abbrev pub Written : Type 0 → Type 0
  Written A = y.Store × Result A

  abbrev inserted_in : y.Store → Option y.Block → ℤ → Str → Written Str
  inserted_in s none index chunk = (s, err (codes "the block no longer exists"))
  inserted_in s (some x) index chunk =
      (y.insert s x (end_or_units (y.pieces s x) (y.len s x) index) chunk, ok chunk)

  unfoldable pub insert : y.Store → y.Identity → ℤ → Str → Written Str
  insert s id index chunk = inserted_in s (y.resolve s id) index chunk

  abbrev removed : y.Store → y.Block → ℕ → ℕ → y.Store
  removed s x from to = if ltb from to then y.remove_range s x from (to - from) else s

  abbrev cut_out : y.Store → y.Block → Option (ℕ × ℕ) → y.Store
  cut_out s x none = s
  cut_out s x (some (from, to)) =
      removed s x (to_units (y.pieces s x) from) (to_units (y.pieces s x) to)

  abbrev deleted_in : y.Store → Option y.Block → ℤ → ℤ → Written (Unit {0})
  deleted_in s none index count = (s, err (codes "the block no longer exists"))
  deleted_in s (some x) index count =
      (cut_out s x (delete_span index count (char_len (y.pieces s x))), ok tt)

  unfoldable pub delete : y.Store → y.Identity → ℤ → ℤ → Written (Unit {0})
  delete s id index count = deleted_in s (y.resolve s id) index count

  abbrev cleared : y.Store → Option y.Block → Written (Unit {0})
  cleared s none = (s, err (codes "the block no longer exists"))
  cleared s (some x) = (removed s x 0 (y.len s x), ok tt)

  unfoldable pub clear : y.Store → y.Identity → Written (Unit {0})
  clear s id = cleared s (y.resolve s id)

  abbrev index_of : y.Store → y.Block → Option ℕ → Option ℕ
  index_of s x none = none
  index_of s x (some n) = embedded_xml_text_index (y.pieces s x) n

  abbrev pub block_removed : y.Store → y.Block → Option ℕ → Written Bool
  block_removed s x none = (s, ok false)
  block_removed s x (some at) = (y.remove_range s x at 1, ok true)

  abbrev pub block_deleted_in : y.Store → Option y.Block → ℤ → Written Bool
  block_deleted_in s none n = (s, err (codes "the block no longer exists"))
  block_deleted_in s (some x) n =
      block_removed s x
        (index_of s x (element_index n (as_u32 (length (embedded_xml_texts (y.pieces s x))))))

  -- `true` where there was such a block.
  unfoldable pub delete_xml_text : y.Store → y.Identity → ℤ → Written Bool
  delete_xml_text s id n = block_deleted_in s (y.resolve s id) n
