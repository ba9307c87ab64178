-- ===== src/Map.antt =====
-- ext/yrby/src/map.rs: the entries of a shared map, read and written through a handle.
pub mod Edits
use yrby.Base.{ℕ, Bool, true, false, Option, none, some, List, [], map, Str, codes}
use yrby.Base.Result.{Result, ok, err}

-- The yrs crate's maps as the source uses them. A handle keeps an identity, which is resolved in
-- each transaction; `Snapshot` is a value that is read out of a document.
pub record Maps : Type 1 where
  pub Store : Type 0
  pub Identity : Type 0
  pub Ref : Type 0
  pub In : Type 0
  pub Out : Type 0
  pub Snapshot : Type 0
  pub resolve : Store → Identity → Option Ref
  pub get : Store → Ref → Str → Option Out
  pub contains_key : Store → Ref → Str → Bool
  pub len : Store → Ref → ℕ
  pub keys : Store → Ref → List Str
  pub iter : Store → Ref → List (Str × Out)
  pub insert : Store → Ref → Str → In → Store
  -- `insert` of a `TextPrelim`, and the identity of the text that it makes.
  pub insert_text : Store → Ref → Str → Str → Store × Identity
  pub remove : Store → Ref → Str → Store
  pub clear : Store → Ref → Store
  -- `out_to_any`
  pub out_to_any : Store → Out → Snapshot

module _ (y : Maps) where
  abbrev pub map_out : y.Store → Option y.Out → Option y.Snapshot
  map_out s none = none
  map_out s (some v) = some (y.out_to_any s v)

  abbrev got : y.Store → Option y.Ref → Str → Option y.Snapshot
  got s none key = none
  got s (some m) key = map_out s (y.get s m key)

  -- `map[key]`; `none` is `nil`.
  unfoldable pub get : y.Store → y.Identity → Str → Option y.Snapshot
  get s id key = got s (y.resolve s id) key

  abbrev has_key_of : y.Store → Option y.Ref → Str → Bool
  has_key_of s none key = false
  has_key_of s (some m) key = y.contains_key s m key

  unfoldable pub has_key : y.Store → y.Identity → Str → Bool
  has_key s id key = has_key_of s (y.resolve s id) key

  abbrev size_of : y.Store → Option y.Ref → ℕ
  size_of s none = 0
  size_of s (some m) = y.len s m

  unfoldable pub size : y.Store → y.Identity → ℕ
  size s id = size_of s (y.resolve s id)

  abbrev keys_of : y.Store → Option y.Ref → List Str
  keys_of s none = []
  keys_of s (some m) = y.keys s m

  unfoldable pub keys : y.Store → y.Identity → List Str
  keys s id = keys_of s (y.resolve s id)

  abbrev snapshot_of : y.Store → Option y.Ref → List (Str × y.Snapshot)
  snapshot_of s none = []
  snapshot_of s (some m) = map (λ e. (e.0, y.out_to_any s e.1)) (y.iter s m)

  unfoldable pub snapshot : y.Store → y.Identity → List (Str × y.Snapshot)
  snapshot s id = snapshot_of s (y.resolve s id)

  -- What a write leaves, and what it returns or raises.
  abbrev pub Written : Type 0 → Type 0
  Written A = y.Store × Result A

  abbrev pub set_in : y.Store → Option y.Ref → Str → y.In → Written (Unit {0})
  set_in s none key v = (s, err (codes "map no longer exists"))
  set_in s (some m) key v = (y.insert s m key v, ok tt)

  unfoldable pub set : y.Store → y.Identity → Str → y.In → Written (Unit {0})
  set s id key v = set_in s (y.resolve s id) key v

  abbrev pub set_text_in : y.Store → Option y.Ref → Str → Str → Written y.Identity
  set_text_in s none key content = (s, err (codes "map no longer exists"))
  set_text_in s (some m) key content =
      let (after, text) = y.insert_text s m key content in (after, ok text)

  -- The handle that it returns is the identity of the new text.
  unfoldable pub set_text : y.Store → y.Identity → Str → Str → Written y.Identity
  set_text s id key content = set_text_in s (y.resolve s id) key content

  -- The previous value is converted before it is removed.
  abbrev pub deleted_in : y.Store → Option y.Ref → Str → Written (Option y.Snapshot)
  deleted_in s none key = (s, ok none)
  deleted_in s (some m) key = (y.remove s m key, ok (map_out s (y.get s m key)))

  unfoldable pub delete : y.Store → y.Identity → Str → Written (Option y.Snapshot)
  delete s id key = deleted_in s (y.resolve s id) key

  abbrev pub cleared : y.Store → Option y.Ref → Written (Unit {0})
  cleared s none = (s, ok tt)
  cleared s (some m) = (y.clear s m, ok tt)

  unfoldable pub clear : y.Store → y.Identity → Written (Unit {0})
  clear s id = cleared s (y.resolve s id)
