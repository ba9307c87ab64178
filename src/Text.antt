-- ===== src/Text.antt =====
-- ext/yrby/src/text.rs: a shared text, read and written by characters through a handle.
pub mod Items
pub mod Edits
pub mod Writes
use yrby.Base.{
  ℕ, ◌-◌, ◌==◌, ltb, if◌then◌else◌, Bool, true, false, Option, none, some, List, [], Str, codes,
}
use yrby.Base.Int.{ℤ, negsuc}
use yrby.Base.Result.{Result, ok, err}
use yrby.Yrs.{Out}
use yrby.Shared.Index.{delete_span}
use yrby.Shared.Units.{char_len, to_units, end_or_units}

-- The yrs crate's texts as the source uses them; `pieces` are the contents of its diff, and `len`
-- and the indexes of the writes count UTF-16 units.
pub record Texts : Type 1 where
  pub Float : Type 0
  pub Element : Type 0
  pub Nested : Type 0
  pub YMap : Type 0
  pub Store : Type 0
  pub Identity : Type 0
  pub Ref : Type 0
  pub resolve : Store → Identity → Option Ref
  pub pieces : Store → Ref → List (Out Float Element Nested YMap)
  pub len : Store → Ref → ℕ
  pub get_string : Store → Ref → Str
  pub insert : Store → Ref → ℕ → Str → Store
  pub remove_range : Store → Ref → ℕ → ℕ → Store

module _ (y : Texts) where
  abbrev string_of : y.Store → Option y.Ref → Str
  string_of s none = []
  string_of s (some t) = y.get_string s t

  unfoldable pub to_s : y.Store → y.Identity → Str
  to_s s id = string_of s (y.resolve s id)

  abbrev length_of : y.Store → Option y.Ref → ℕ
  length_of s none = 0
  length_of s (some t) = char_len (y.pieces s t)

  unfoldable pub length : y.Store → y.Identity → ℕ
  length s id = length_of s (y.resolve s id)

  abbrev empty_of : y.Store → Option y.Ref → Bool
  empty_of s none = true
  empty_of s (some t) = y.len s t == 0

  unfoldable pub is_empty : y.Store → y.Identity → Bool
  is_empty s id = empty_of s (y.resolve s id)

  -- What a write leaves, and what it returns or raises.
  abbrev pub Written : Type 0
  Written = y.Store × Result (Unit {0})

  abbrev inserted_in : y.Store → Option y.Ref → ℤ → Str → Written
  inserted_in s none index chunk = (s, err (codes "text no longer exists"))
  inserted_in s (some t) index chunk =
      (y.insert s t (end_or_units (y.pieces s t) (y.len s t) index) chunk, ok tt)

  unfoldable pub insert_at : y.Store → y.Identity → ℤ → Str → Written
  insert_at s id index chunk = inserted_in s (y.resolve s id) index chunk

  -- `rb_self.insert_at(-1, chunk)`
  unfoldable pub push : y.Store → y.Identity → Str → Written
  push s id chunk = insert_at s id (negsuc 0) chunk

  abbrev removed : y.Store → y.Ref → ℕ → ℕ → y.Store
  removed s t from to = if ltb from to then y.remove_range s t from (to - from) else s

  abbrev cut_out : y.Store → y.Ref → Option (ℕ × ℕ) → y.Store
  cut_out s t none = s
  cut_out s t (some (from, to)) =
      removed s t (to_units (y.pieces s t) from) (to_units (y.pieces s t) to)

  abbrev deleted_in : y.Store → Option y.Ref → ℤ → ℤ → Written
  deleted_in s none index count = (s, err (codes "text no longer exists"))
  deleted_in s (some t) index count =
      (cut_out s t (delete_span index count (char_len (y.pieces s t))), ok tt)

  unfoldable pub delete : y.Store → y.Identity → ℤ → ℤ → Written
  delete s id index count = deleted_in s (y.resolve s id) index count

  abbrev cleared : y.Store → Option y.Ref → Written
  cleared s none = (s, ok tt)
  cleared s (some t) = (removed s t 0 (y.len s t), ok tt)

  unfoldable pub clear : y.Store → y.Identity → Written
  clear s id = cleared s (y.resolve s id)
