-- ===== src/Protocol/Frames.antt =====
-- What a frame's code says of its content.
use yrby.Base.{ℕ, ◌≤◌, ◌≢◌, ◌≡◌, refl, Option, none, some, List, [], ◌∷◌, arith}
use yrby.Base.Result.{ok}
use yrby.Protocol.{
  Message, sync_step1, sync_step2, update_message, awareness, awareness_query, auth_or_custom, Docs,
  code_of, classify_message, merged_doc_update, payloads,
}

module _ (y : Docs) where
  -- A frame with a code is one message that takes all its bytes.
  abbrev pub IsClassified : List ℕ → ℕ → Type 0
  IsClassified bytes code = (code ≤ 4) × (m : Message) × (y.decode_message bytes ≡ some (m, []))

  decoded :
      (o : Option (Message × List ℕ))
      → code_of y o ≢ 0
      → (code_of y o ≤ 4) × (m : Message) × (o ≡ some (m, []))
  decoded none h = absurd (h refl)
  decoded (some (_, c ∷ left)) h = absurd (h refl)
  decoded (some (sync_step1 u, [])) h = (omega arith, sync_step1 u, refl)
  decoded (some (sync_step2 u, [])) h = (omega arith, sync_step2 u, refl)
  decoded (some (update_message u, [])) h = (omega arith, update_message u, refl)
  decoded (some (awareness u, [])) h = (omega arith, awareness u, refl)
  decoded (some (awareness_query, [])) h = (omega arith, awareness_query, refl)
  decoded (some (auth_or_custom, [])) h = absurd (h refl)

  -- A non-zero code is at most 4, and is given only to exactly one message that takes all the bytes.
  pub classify_message-IsClassified :
      (bytes : List ℕ)
      → classify_message y bytes ≢ 0
      → IsClassified bytes (classify_message y bytes)
  unfolding classify_message
  classify_message-IsClassified bytes h = decoded (y.decode_message bytes) h

  no_payload :
      (bytes : List ℕ) (o : Option (Message × List ℕ))
      → ((b : List ℕ) (m : Message)
          → y.decode_message b ≡ some (m, [])
          → y.read_messages b ≡ ok m ∷ [])
      → y.decode_message bytes ≡ o
      → code_of y o ≢ 0
      → code_of y o ≢ 2
      → merged_doc_update y bytes ≡ ok none
  unfolding merged_doc_update payloads
  no_payload bytes none reader e h k = absurd (h refl)
  no_payload bytes (some (_, c ∷ left)) reader e h k = absurd (h refl)
  no_payload bytes (some (sync_step1 u, [])) reader e h k = rw (reader bytes _ e) refl
  no_payload bytes (some (sync_step2 u, [])) reader e h k = absurd (k refl)
  no_payload bytes (some (update_message u, [])) reader e h k = absurd (k refl)
  no_payload bytes (some (awareness u, [])) reader e h k = rw (reader bytes _ e) refl
  no_payload bytes (some (awareness_query, [])) reader e h k = rw (reader bytes _ e) refl
  no_payload bytes (some (auth_or_custom, [])) reader e h k = absurd (h refl)

  -- Where the reader yields the one message of a frame that holds one message, a frame that is
  -- classified as anything but a document change carries no document update, and no error.
  pub merged_doc_update-none :
      (bytes : List ℕ)
      → ((b : List ℕ) (m : Message)
          → y.decode_message b ≡ some (m, [])
          → y.read_messages b ≡ ok m ∷ [])
      → classify_message y bytes ≢ 0
      → classify_message y bytes ≢ 2
      → merged_doc_update y bytes ≡ ok none
  unfolding classify_message
  merged_doc_update-none bytes reader h k =
      no_payload bytes (y.decode_message bytes) reader refl h k
