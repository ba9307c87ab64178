-- ===== src/Array/Raises.antt =====
-- A write that raises leaves the document as it was.
use yrby.Base.{ℕ, ◌≡◌, refl, Option, none, some, Str}
use yrby.Base.Int.{ℤ, negsuc}
use yrby.Base.Result.{err}
use yrby.Shared.Index.{element_index}
use yrby.Array.{
  Arrays, Written, inserted_in, insert_at, push, deleted_at, deleted_in, delete_at, cleared, clear,
  set_at, set_in, set,
}
use yrby.Array.Edits.{Op, insert_op, push_op, delete_op, set_op, clear_op, unreplied, performed}

module _ (y : Arrays) (s : y.Store) (id : y.Identity) where
  abbrev Safe : Written y (Unit {0}) → Type 0
  Safe w = (message : Str) → w.1 ≡ err message → w.0 ≡ s

  Safe-inserted_in : (o : Option y.Ref) (index : ℤ) (v : y.In) → Safe (inserted_in y s o index v)
  Safe-inserted_in none index v message e = refl
  Safe-inserted_in (some a) index v message e = cc

  Safe-deleted_at : (a : y.Ref) (o : Option ℕ) → Safe (unreplied y s id (deleted_at y s a o))
  Safe-deleted_at a none message e = refl
  Safe-deleted_at a (some i) message e = cc

  Safe-deleted_in :
      (o : Option y.Ref) (index : ℤ) → Safe (unreplied y s id (deleted_in y s o index))
  Safe-deleted_in none index = λ message e. refl
  Safe-deleted_in (some a) index = Safe-deleted_at a (element_index index (y.len s a))

  Safe-cleared : (o : Option y.Ref) → Safe (cleared y s o)
  Safe-cleared none message e = refl
  Safe-cleared (some a) message e = cc

  Safe-set_at : (a : y.Ref) (o : Option ℕ) (v : y.In) → Safe (set_at y s a o v)
  Safe-set_at a none v message e = refl
  Safe-set_at a (some i) v message e = cc

  Safe-set_in : (o : Option y.Ref) (index : ℤ) (v : y.In) → Safe (set_in y s o index v)
  Safe-set_in none index v = λ message e. refl
  Safe-set_in (some a) index v = Safe-set_at a (element_index index (y.len s a)) v

  -- Whatever the handle, a write that raises leaves the document as it was.
  pub performed-raises :
      (op : Op y.In) (message : Str)
      → (performed y s id op).1 ≡ err message
      → (performed y s id op).0 ≡ s
  unfolding insert_at push delete_at set clear
  performed-raises (insert_op index v) = Safe-inserted_in (y.resolve s id) index v
  performed-raises (push_op v) = Safe-inserted_in (y.resolve s id) (negsuc 0) v
  performed-raises (delete_op index) = Safe-deleted_in (y.resolve s id) index
  performed-raises (set_op index v) = Safe-set_in (y.resolve s id) index v
  performed-raises clear_op = Safe-cleared (y.resolve s id)
