-- ===== src/Protocol.antt =====
-- ext/yrby/src/protocol.rs: what a frame of the sync protocol is, and what an update would do to a
-- document. Each function is a read of the document it is given: it works on a copy.
pub mod Frames
pub mod Laws
pub mod Updates
pub mod Retries
use yrby.Base.{
  ℕ, ltb, if◌then◌else◌, Bool, true, false, not, ◌&&◌, ◌||◌, Option, none, some, List, [], ◌∷◌,
  ◌++◌, Str, codes, str_eq, any_of,
}
use yrby.Base.Result.{Result, ok, err, ◌>>=◌}

-- `yrs::sync::Message` and its `SyncMessage`.
pub data Message : Type 0 where
  sync_step1 : List ℕ → Message
  sync_step2 : List ℕ → Message
  update_message : List ℕ → Message
  awareness : List ℕ → Message
  awareness_query : Message
  auth_or_custom : Message

-- The documents and updates of the yrs crate, and its decoders; errors are shown as strings.
pub record Docs : Type 1 where
  pub Doc : Type 0
  pub Update : Type 0
  pub StateVector : Type 0
  -- `Message::decode`, with the bytes that it leaves, and all that a `MessageReader` yields
  pub decode_message : List ℕ → Option (Message × List ℕ)
  pub read_messages : List ℕ → List (Result Message)
  pub merge_updates_v1 : List (List ℕ) → Result (List ℕ)
  pub decode_v1 : List ℕ → Result Update
  -- `update.state_vector()`, `state_vector_lower()` and whether `delete_set()` is empty
  pub update_vector : Update → StateVector
  pub lower_vector : Update → StateVector
  pub deletes_nothing : Update → Bool
  -- `insertions(true)`: each client's ranges, by start and end
  pub insertions : Update → List (ℕ × List (ℕ × ℕ))
  pub empty_vector : StateVector
  pub is_empty_vector : StateVector → Bool
  pub clock : StateVector → ℕ → ℕ
  -- `a >= b`, a partial order, and `a == b`
  pub covers : StateVector → StateVector → Bool
  pub same_vector : StateVector → StateVector → Bool
  pub new_doc : Doc
  pub apply_update : Doc → Update → Result Doc
  pub prune_pending : Doc → Doc
  pub doc_vector : Doc → StateVector
  pub encode : Doc → StateVector → List ℕ
  -- whether the store's `pending_update()` and `pending_ds()` are there
  pub pending_update : Doc → Bool
  pub pending_ds : Doc → Bool

-- `a != b`
xor : Bool → Bool → Bool
xor true b = not b
xor false b = b

module _ (y : Docs) where
  abbrev code_of : Option (Message × List ℕ) → ℕ
  code_of none = 0
  code_of (some (_, c ∷ left)) = 0
  code_of (some (sync_step1 _, [])) = 1
  code_of (some (sync_step2 _, [])) = 2
  code_of (some (update_message _, [])) = 2
  code_of (some (awareness _, [])) = 3
  code_of (some (awareness_query, [])) = 4
  code_of (some (auth_or_custom, [])) = 0

  unfoldable pub classify_message : List ℕ → ℕ
  classify_message bytes = code_of (y.decode_message bytes)

  abbrev payload : Message → List (List ℕ)
  payload (update_message u) = u ∷ []
  payload (sync_step2 u) = u ∷ []
  payload _ = []

  -- The loop over the reader: `updates`, or the first error.
  unfoldable pub payloads : List (Result Message) → Result (List (List ℕ))
  payloads [] = ok []
  payloads (err e ∷ messages) = err e
  payloads (ok m ∷ messages) = payloads messages >>= λ us. ok (payload m ++ us)

  -- An update with no structs, no deletes and no dependencies.
  abbrev is_no_op : y.Update → Bool
  is_no_op u =
      y.is_empty_vector (y.update_vector u)
      && y.deletes_nothing u
      && y.is_empty_vector (y.lower_vector u)

  abbrev unless_no_op : List ℕ → Result (Option (List ℕ))
  unless_no_op merged = y.decode_v1 merged >>= λ u. ok (if is_no_op u then none else some merged)

  abbrev merged_of : List (List ℕ) → Result (Option (List ℕ))
  merged_of [] = ok none
  merged_of (u ∷ []) = unless_no_op u
  merged_of (u ∷ (v ∷ us)) = y.merge_updates_v1 (u ∷ (v ∷ us)) >>= unless_no_op

  unfoldable pub merged_doc_update : List ℕ → Result (Option (List ℕ))
  unfolding payloads
  merged_doc_update bytes = payloads (y.read_messages bytes) >>= merged_of

  unfoldable pub has_pending : y.Doc → Bool
  has_pending doc = y.pending_update doc || y.pending_ds doc

  abbrev decode_and_apply : y.Doc → List ℕ → Result y.Doc
  decode_and_apply doc bytes = y.decode_v1 bytes >>= λ u. y.apply_update doc u

  unfoldable pub integrated_update : y.Doc → y.StateVector → Result (List ℕ)
  integrated_update doc sv =
      if not (y.pending_update doc) && not (y.pending_ds doc)
      then ok (y.encode doc sv)
      else (decode_and_apply y.new_doc (y.encode doc y.empty_vector) >>= λ clean.
          ok (y.encode (y.prune_pending clean) sv))

  -- The throwaway probe behind the update.
  unfoldable pub ready_probe : y.Doc → y.Update → Result y.Doc
  unfolding integrated_update
  ready_probe doc u = integrated_update doc y.empty_vector >>= λ seed.
      decode_and_apply y.new_doc seed >>= λ probe. y.apply_update probe u

  unfoldable pub update_is_ready : y.Doc → List ℕ → Result Bool
  unfolding ready_probe has_pending
  update_is_ready doc bytes = y.decode_v1 bytes >>= λ u.
      if not (y.covers (y.doc_vector doc) (y.lower_vector u))
      then ok false
      else (ready_probe doc u >>= λ probe. ok (not (has_pending probe)))

  -- A range that ends past the cap of its client, where the cap is not zero.
  unfoldable pub has_hidden_gap : y.StateVector → List (ℕ × List (ℕ × ℕ)) → Bool
  has_hidden_gap capped [] = false
  has_hidden_gap capped ((client, ranges) ∷ rest) =
      let cap = y.clock capped client in
      (ltb 0 cap && any_of (λ range. ltb cap range.1) ranges) || has_hidden_gap capped rest

  -- The probe that holds the document's whole state, pending included.
  unfoldable pub seeded_probe : y.Doc → Result y.Doc
  seeded_probe doc = decode_and_apply y.new_doc (y.encode doc y.empty_vector)

  -- Whether the update changes what is measured of the probe.
  unfoldable pub changes : y.Doc → y.Doc → y.Update → Bool
  unfolding has_pending xor
  changes before after u =
      if not (y.deletes_nothing u)
      then not (str_eq (y.encode before y.empty_vector) (y.encode after y.empty_vector))
      else if not (y.same_vector (y.doc_vector before) (y.doc_vector after))
      then true
      else xor (has_pending after) (has_pending before)

  abbrev measured : y.Doc → y.Update → Result Bool
  measured doc u =
      seeded_probe doc >>= λ probe. y.apply_update probe u >>= λ after. ok (changes probe after u)

  unfoldable pub update_advances_doc : y.Doc → List ℕ → Result Bool
  unfolding has_hidden_gap seeded_probe changes
  update_advances_doc doc bytes = y.decode_v1 bytes >>= λ u.
      if has_hidden_gap (y.update_vector u) (y.insertions u)
      then ok true
      else if y.deletes_nothing u && not (y.covers (y.doc_vector doc) (y.update_vector u))
      then ok true
      else measured doc u
