-- ===== src/Array.antt =====
-- ext/yrby/src/array.rs: the elements of a shared array, read and written through a handle.
pub mod Edits
pub mod Raises
use yrby.Base.{
  ℕ, ◌==◌, ltb, if◌then◌else◌, Bool, true, false, Option, none, some, List, [], Str, codes,
}
use yrby.Base.Int.{ℤ, pos, negsuc}
use yrby.Base.Result.{Result, ok, err}
use yrby.Shared.Index.{insert_index, element_index}

-- The yrs crate's arrays as the source uses them. A handle keeps an identity, which is resolved in
-- each transaction; `Snapshot` is a value that is read out of a document.
pub record Arrays : Type 1 where
  pub Store : Type 0
  pub Identity : Type 0
  pub Ref : Type 0
  pub In : Type 0
  pub Out : Type 0
  pub Snapshot : Type 0
  pub resolve : Store → Identity → Option Ref
  pub len : Store → Ref → ℕ
  pub get : Store → Ref → ℕ → Option Out
  pub iter : Store → Ref → List Out
  pub insert : Store → Ref → ℕ → In → Store
  pub remove : Store → Ref → ℕ → Store
  pub remove_range : Store → Ref → ℕ → ℕ → Store
  -- `out_to_any`
  pub out_to_any : Store → Out → Snapshot

module _ (y : Arrays) where
  abbrev map_out : y.Store → Option y.Out → Option y.Snapshot
  map_out s none = none
  map_out s (some v) = some (y.out_to_any s v)

  abbrev got_at : y.Store → y.Ref → Option ℕ → Option y.Snapshot
  got_at s a none = none
  got_at s a (some i) = map_out s (y.get s a i)

  abbrev got : y.Store → Option y.Ref → ℤ → Option y.Snapshot
  got s none index = none
  got s (some a) index = got_at s a (element_index index (y.len s a))

  -- `array[i]`; `none` is `nil`.
  unfoldable pub get : y.Store → y.Identity → ℤ → Option y.Snapshot
  get s id index = got s (y.resolve s id) index

  abbrev size_of : y.Store → Option y.Ref → ℕ
  size_of s none = 0
  size_of s (some a) = y.len s a

  unfoldable pub size : y.Store → y.Identity → ℕ
  size s id = size_of s (y.resolve s id)

  unfoldable pub is_empty : y.Store → y.Identity → Bool
  is_empty s id = size s id == 0

  -- What a write leaves, and what it returns or raises.
  abbrev pub Written : Type 0 → Type 0
  Written A = y.Store × Result A

  abbrev inserted_in : y.Store → Option y.Ref → ℤ → y.In → Written (Unit {0})
  inserted_in s none index v = (s, err (codes "array no longer exists"))
  inserted_in s (some a) index v = (y.insert s a (insert_index index (y.len s a)) v, ok tt)

  unfoldable pub insert_at : y.Store → y.Identity → ℤ → y.In → Written (Unit {0})
  insert_at s id index v = inserted_in s (y.resolve s id) index v

  -- `rb_self.insert_at(-1, value)`
  unfoldable pub push : y.Store → y.Identity → y.In → Written (Unit {0})
  push s id v = insert_at s id (negsuc 0) v

  abbrev deleted_at : y.Store → y.Ref → Option ℕ → Written (Option y.Snapshot)
  deleted_at s a none = (s, ok none)
  deleted_at s a (some i) = (y.remove s a i, ok (map_out s (y.get s a i)))

  abbrev deleted_in : y.Store → Option y.Ref → ℤ → Written (Option y.Snapshot)
  deleted_in s none index = (s, ok none)
  deleted_in s (some a) index = deleted_at s a (element_index index (y.len s a))

  -- The element's snapshot is taken before it is removed.
  unfoldable pub delete_at : y.Store → y.Identity → ℤ → Written (Option y.Snapshot)
  delete_at s id index = deleted_in s (y.resolve s id) index

  abbrev cleared : y.Store → Option y.Ref → Written (Unit {0})
  cleared s none = (s, ok tt)
  cleared s (some a) = (if ltb 0 (y.len s a) then y.remove_range s a 0 (y.len s a) else s, ok tt)

  unfoldable pub clear : y.Store → y.Identity → Written (Unit {0})
  clear s id = cleared s (y.resolve s id)

  abbrev set_at : y.Store → y.Ref → Option ℕ → y.In → Written (Unit {0})
  set_at s a none v = (s, err (codes "index out of range"))
  set_at s a (some i) v = (y.insert (y.remove s a i) a i v, ok tt)

  abbrev set_in : y.Store → Option y.Ref → ℤ → y.In → Written (Unit {0})
  set_in s none index v = (s, err (codes "array no longer exists"))
  set_in s (some a) index v = set_at s a (element_index index (y.len s a)) v

  -- Replace an element: a removal and an insertion in one transaction.
  unfoldable pub set : y.Store → y.Identity → ℤ → y.In → Written (Unit {0})
  set s id index v = set_in s (y.resolve s id) index v
