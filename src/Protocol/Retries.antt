-- ===== src/Protocol/Retries.antt =====
-- What it means that an update does not advance a document.
use yrby.Base.{◌≡◌, Bool, true, false, ℕ, ◌<◌}
use yrby.Base.Result.{Result}
use yrby.Protocol.{Docs, has_pending}
use yrby.Protocol.Laws.{Carries, Meaning, IsYrs}

module _ (y : Docs) where
  -- What is compared of the probe, before and after: the encoded state where the update deletes,
  -- and otherwise the state vector and whether anything is pending.
  abbrev IsUnmoved : Bool → y.Doc → y.Doc → Type 0
  IsUnmoved false before after = y.encode before y.empty_vector ≡ y.encode after y.empty_vector
  IsUnmoved true before after =
      (y.same_vector (y.doc_vector before) (y.doc_vector after) ≡ true)
      × (has_pending y before ≡ has_pending y after)

module _ (y : Docs) (m : Meaning y) (laws : IsYrs y m) where
  -- The document has all that the update inserts, and has deleted all that it deletes.
  abbrev pub IsKnown : y.Doc → y.Update → Type 0
  IsKnown doc u =
      ((c k : ℕ) → Carries (y.insertions u) c k → k < y.clock (y.doc_vector doc) c)
      × ((c k : ℕ) → m.Deletes u c k → m.Deleted (m.state doc) c k)
