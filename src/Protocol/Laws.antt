-- ===== src/Protocol/Laws.antt =====
-- What ext/yrby/src/protocol.rs relies on of the yrs crate: documents as their integrated content,
-- beside which updates that do not fit are parked.
use yrby.Base.{ℕ, ◌<◌, ◌≤◌, ◌≡◌, Bool, true, false, not, List, [], ◌∷◌, ◌⊎◌}
use yrby.Base.Result.{ok}
use yrby.Protocol.{Docs, has_pending}

-- A clock in one of some ranges, and a client's clock in the ranges of all clients.
abbrev pub InRanges : List (ℕ × ℕ) → ℕ → Type 0
InRanges [] k = ⊥
InRanges ((start, stop) ∷ ranges) k = ((start ≤ k) × (k < stop)) ⊎ InRanges ranges k

abbrev pub Carries : List (ℕ × List (ℕ × ℕ)) → ℕ → ℕ → Type 0
Carries [] c k = ⊥
Carries ((client, ranges) ∷ rest) c k = ((client ≡ c) × InRanges ranges k) ⊎ Carries rest c k

-- No insertion lies past the end, if there is one, of its client's in the update's state vector.
abbrev pub IsGapFree : (y : Docs) → y.Update → Type 0
IsGapFree y u =
    (c k : ℕ)
    → Carries (y.insertions u) c k
    → 0 < y.clock (y.update_vector u) c
    → k < y.clock (y.update_vector u) c

-- The integrated content of a document; whether it has all that an update builds on, and whether no
-- range is missing in front of other content; what an update deletes and what is deleted, by
-- client and clock.
pub record Meaning (y : Docs) : Type 1 where
  pub State : Type 0
  pub state : y.Doc → State
  pub fits : State → y.Update → Bool
  pub IsWhole : State → Type 0
  pub Deletes : y.Update → ℕ → ℕ → Type 0
  pub Deleted : State → ℕ → ℕ → Type 0

pub record IsYrs (y : Docs) (m : Meaning y) : Type 0 where
  -- The full encoding rebuilds the content in a new document, and parks there what was parked.
  pub rebuild :
      (d : y.Doc)
      → (u : y.Update) × (r : y.Doc) × (y.decode_v1 (y.encode d y.empty_vector) ≡ ok u)
        × (y.apply_update y.new_doc u ≡ ok r)
        × (m.state r ≡ m.state d)
        × (has_pending y r ≡ has_pending y d)
  -- Pruning drops what is parked, and nothing else.
  pub prune-state : (d : y.Doc) → m.state (y.prune_pending d) ≡ m.state d
  pub prune-pending : (d : y.Doc) → has_pending y (y.prune_pending d) ≡ false
  -- Where nothing is parked, just an update that does not fit is.
  pub apply-fits :
      (d : y.Doc) (u : y.Update)
      → has_pending y d ≡ false
      → (after : y.Doc) × (y.apply_update d u ≡ ok after)
        × (has_pending y after ≡ not (m.fits (m.state d) u))
  -- An update does not fit below its lower bound.
  pub lower-fits :
      (d : y.Doc) (u : y.Update)
      → y.covers (y.doc_vector d) (y.lower_vector u) ≡ false
      → m.fits (m.state d) u ≡ false
  -- The state vector is that of the content, and comparing vectors compares clocks.
  pub state-clock :
      (d e : y.Doc)
      → m.state d ≡ m.state e
      → (c : ℕ) → y.clock (y.doc_vector d) c ≡ y.clock (y.doc_vector e) c
  pub same-clock :
      (v w : y.StateVector) → y.same_vector v w ≡ true → (c : ℕ) → y.clock v c ≡ y.clock w c
  -- An update is integrated, unless it does not fit and is parked.
  pub apply-inserts :
      (d after : y.Doc) (u : y.Update)
      → m.IsWhole (m.state d)
      → IsGapFree y u
      → y.apply_update d u ≡ ok after
      → (c k : ℕ) → Carries (y.insertions u) c k
      → (k < y.clock (y.doc_vector after) c)
        ⊎ ((has_pending y after ≡ true) × (m.fits (m.state d) u ≡ false))
  pub apply-deletes :
      (d after : y.Doc) (u : y.Update)
      → y.apply_update d u ≡ ok after
      → (c k : ℕ) → m.Deletes u c k
      → m.Deleted (m.state after) c k
        ⊎ ((has_pending y after ≡ true) × (m.fits (m.state d) u ≡ false))
  pub nothing-deletes : (u : y.Update) → y.deletes_nothing u ≡ true → (c k : ℕ) → ¬ m.Deletes u c k
