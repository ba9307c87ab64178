-- ===== src/Tests/Protocol.antt =====
-- The theorems on the protocol at concrete inputs: documents of one client, and updates that are a
-- range of clocks and the deletion of one.
use yrby.Base.{
  ◌<◌, ◌&&◌, ◌||◌, not, ◌⊎◌, inl, inr, ap, ℕ, ◌==◌, ◌≡◌, refl, leb, if◌then◌else◌, Bool, true,
  false, Option, none, some, List, [], ◌∷◌, codes, str_eq, arith,
}
use yrby.Base.Result.{Result, ok, err}
use yrby.Protocol.{
  Message, awareness_query, Docs, classify_message, merged_doc_update, has_pending,
  integrated_update, update_is_ready, update_advances_doc, has_hidden_gap, seeded_probe, changes,
}
use yrby.Protocol.Frames.{IsClassified, classify_message-IsClassified, merged_doc_update-none}
use yrby.Protocol.Laws.{Carries, Meaning, IsYrs}
use yrby.Protocol.Updates.{IsIntegrated, integrated_update-IsIntegrated, update_is_ready-fits}

abbrev query_frame : List ℕ → Option (Message × List ℕ)
query_frame [] = none
query_frame (c ∷ rest) = some (awareness_query, rest)

abbrev queries : List ℕ → List (Result Message)
queries [] = []
queries (c ∷ rest) = ok awareness_query ∷ queries rest

-- A range, whether more comes with it that cannot be integrated, and whether it deletes clock 0.
abbrev Range : Type 0
Range = ℕ × ℕ × Bool × Bool

abbrev range_of : List ℕ → Result Range
range_of (a ∷ b ∷ []) = ok (a, b, false, false)
range_of (a ∷ b ∷ c ∷ []) = ok (a, b, c == 1 || c == 3, leb 2 c)
range_of _ = err (codes "range")

abbrev greater : ℕ → ℕ → ℕ
greater a b = if leb a b then b else a

-- A clock, whether anything is pending, and whether clock 0 is deleted.
abbrev Clocked : Type 0
Clocked = ℕ × Bool × Bool

-- A range that starts past the clock is parked.
abbrev extend : Clocked → Range → Result Clocked
extend (n, parked, gone) (a, b, more, deletes) =
    ok (if leb a n then greater b n else n, parked || more || not (leb a n), gone || deletes)

abbrev encoded : Clocked → List ℕ
encoded (n, false, false) = 0 ∷ n ∷ 0 ∷ []
encoded (n, true, false) = 0 ∷ n ∷ 1 ∷ []
encoded (n, false, true) = 0 ∷ n ∷ 2 ∷ []
encoded (n, true, true) = 0 ∷ n ∷ 3 ∷ []

abbrev clocks : Docs
clocks = record {
  Doc = Clocked;
  Update = Range;
  StateVector = ℕ;
  decode_message = query_frame;
  read_messages = queries;
  merge_updates_v1 = λ us. ok [];
  decode_v1 = range_of;
  update_vector = λ u. if u.0 == 0 then u.1 else 0;
  lower_vector = λ u. u.0;
  deletes_nothing = λ u. not u.3;
  insertions = λ u. (0, (u.0, u.1) ∷ []) ∷ [];
  empty_vector = 0;
  is_empty_vector = λ v. v == 0;
  clock = λ v client. if client == 0 then v else 0;
  covers = λ v w. leb w v;
  same_vector = λ v w. v == w;
  new_doc = (0, false, false);
  apply_update = extend;
  prune_pending = λ d. (d.0, false, d.2);
  doc_vector = λ d. d.0;
  encode = λ d v. encoded d;
  pending_update = λ d. d.1;
  pending_ds = λ d. false;
}

abbrev clock_of : Meaning clocks
clock_of = record {
  State = ℕ × Bool;
  state = λ d. (d.0, d.2);
  fits = λ n u. leb u.0 n.0 && not u.2;
  IsWhole = λ n. Unit;
  Deletes = λ u c k. (u.3 ≡ true) × (c ≡ 0) × (k ≡ 0);
  Deleted = λ n c k. (n.1 ≡ true) × (c ≡ 0) × (k ≡ 0);
}

rebuild-encoded :
    (d : Clocked)
    → (u : Range) × (r : Clocked) × (range_of (encoded d) ≡ ok u)
      × (extend (0, false, false) u ≡ ok r)
      × (clock_of.state r ≡ clock_of.state d)
      × (has_pending clocks r ≡ has_pending clocks d)
unfolding has_pending
rebuild-encoded (n, p, gone) = (
  (0, n, p, gone),
  (greater n 0, p, gone),
  flags p gone,
  λ i. ok (greater n 0, unparked p i, gone),
  λ i. (zero_least i, gone),
  refl,
)
  where
    zero_least : greater n 0 ≡ n
    zero_least = ground arith

    unparked : (p : Bool) → (false || p || not (leb 0 0)) ≡ p
    unparked true = refl
    unparked false = refl

    flags : (p gone : Bool) → range_of (encoded (n, p, gone)) ≡ ok (0, n, p, gone)
    flags false false = refl
    flags true false = refl
    flags false true = refl
    flags true true = refl

extend-fits :
    (d : Clocked) (u : Range)
    → has_pending clocks d ≡ false
    → (after : Clocked) × (extend d u ≡ ok after)
      × (has_pending clocks after ≡ not (leb u.0 d.0 && not u.2))
unfolding has_pending
extend-fits (n, parked, gone) (a, b, more, deletes) h = (
  (if leb a n then greater b n else n, parked || more || not (leb a n), gone || deletes),
  refl,
  ground (arith, h),
)

extend-inserts :
    (d after : Clocked) (u : Range)
    → extend d u ≡ ok after
    → (c k : ℕ) → Carries (clocks.insertions u) c k
    → (k < clocks.clock after.0 c)
      ⊎ ((has_pending clocks after ≡ true) × ((leb u.0 d.0 && not u.2) ≡ false))
unfolding has_pending
extend-inserts (n, parked, gone) (m, p, g) (a, b, more, deletes) e c k
      (inl (zero_is, inl (from, below))) =
    ground (arith, e, zero_is, from, below)
extend-inserts (n, parked, gone) (m, p, g) (a, b, more, deletes) e c k
      (inl (zero_is, inr none_left)) =
    absurd none_left
extend-inserts (n, parked, gone) (m, p, g) (a, b, more, deletes) e c k (inr none_left) =
    absurd none_left

extend-deletes :
    (d after : Clocked) (u : Range) → extend d u ≡ ok after → u.3 ≡ true → after.2 ≡ true
extend-deletes (n, parked, gone) (m, p, g) (a, b, more, deletes) e h = ground (arith, e, h)

clocks-IsYrs : IsYrs clocks clock_of
unfolding has_pending
clocks-IsYrs = record {
  rebuild = rebuild-encoded;
  prune-state = λ d. refl;
  prune-pending = λ d. refl;
  apply-fits = extend-fits;
  lower-fits = λ d u h. ground (arith, h);
  state-clock = λ d e h c. ap (λ (s : ℕ × Bool). clocks.clock s.0 c) h;
  same-clock = λ v w h c. ap (λ n. clocks.clock n c) (ground (arith, h));
  apply-inserts = λ d after u _ _ e c k m. extend-inserts d after u e c k m;
  apply-deletes = λ d after u e c k m. inl (extend-deletes d after u e m.0, m.1, m.2);
  nothing-deletes = λ u h c k m. both_ways u.3 h m.0;
}
  where
    both_ways : (b : Bool) → not b ≡ true → ¬ (b ≡ true)
    both_ways true h k = cc
    both_ways false h k = cc

one_message : (b : List ℕ) (m : Message) → query_frame b ≡ some (m, []) → queries b ≡ ok m ∷ []
one_message [] m h = cc
one_message (c ∷ []) m h = cc
one_message (c ∷ (d ∷ rest)) m h = cc

classify_message-IsClassified_example :
    IsClassified clocks (7 ∷ []) (classify_message clocks (7 ∷ []))
unfolding classify_message
classify_message-IsClassified_example = classify_message-IsClassified clocks (7 ∷ []) (ground arith)

merged_doc_update-none_example : merged_doc_update clocks (7 ∷ []) ≡ ok none
unfolding classify_message
merged_doc_update-none_example =
    merged_doc_update-none clocks (7 ∷ []) one_message (ground arith) (ground arith)

integrated_update-IsIntegrated_example :
    IsIntegrated clocks clock_of clocks-IsYrs
      (5, true, true)
      0
      (integrated_update clocks (5, true, true) 0)
integrated_update-IsIntegrated_example =
    integrated_update-IsIntegrated clocks clock_of clocks-IsYrs (5, true, true) 0

-- A document with pending content, and an update that is ready all the same.
update_is_ready-fits_example : update_is_ready clocks (5, true, false) (3 ∷ 9 ∷ []) ≡ ok true
update_is_ready-fits_example =
    update_is_ready-fits clocks clock_of clocks-IsYrs (5, true, false) (3 ∷ 9 ∷ [])
      (3, 9, false, false) refl

-- Runs: a parked update is not ready, and advances the document.
update_is_ready-parked : update_is_ready clocks (5, true, false) (7 ∷ 9 ∷ []) ≡ ok false
unfolding update_is_ready
update_is_ready-parked = refl

update_advances_doc-novel : update_advances_doc clocks (5, false, false) (5 ∷ 6 ∷ []) ≡ ok true
unfolding update_advances_doc has_hidden_gap seeded_probe changes has_pending
update_advances_doc-novel = refl

update_advances_doc-deletes :
    update_advances_doc clocks (5, false, false) (3 ∷ 4 ∷ 2 ∷ []) ≡ ok true
unfolding update_advances_doc has_hidden_gap seeded_probe changes has_pending str_eq
update_advances_doc-deletes = refl
