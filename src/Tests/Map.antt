-- ===== src/Tests/Map.antt =====
-- The theorem on shared maps at a concrete document: the log of one map's writes.
use yrby.Base.{
  ℕ, zero, suc, ◌≡◌, refl, if◌then◌else◌, Bool, Option, none, some, List, [], ◌∷◌, map, Str, length,
  str_eq, codes,
}
use yrby.Base.Result.{ok}
use yrby.Map.{Maps, set, delete, get, keys}
use yrby.Map.Edits.{IsMap, delete_op, MapStep, entries, performed, performed-MapStep}

data Entry : Type 0 where
  number : ℕ → Entry
  text : Str → Entry

abbrev Log : Type 0
Log = List (Str × Option Entry)

-- The last write of a key is its entry.
abbrev look_up : Log → Str → Option Entry
look_up [] j = none
look_up ((key, entry) ∷ log) j = if str_eq j key then entry else look_up log j

abbrev without : Str → List (Str × Entry) → List (Str × Entry)
without key [] = []
without key ((k, v) ∷ es) = if str_eq k key then without key es else (k, v) ∷ without key es

abbrev live : Log → List (Str × Entry)
live [] = []
live ((key, none) ∷ log) = without key (live log)
live ((key, some v) ∷ log) = (key, v) ∷ without key (live log)

abbrev is_some : {A : Type 0} → Option A → Bool
is_some none = Bool.false
is_some (some _) = Bool.true

-- The map's identity is 0, and a text's is anything else.
abbrev the_map : ℕ → Option (Unit {0})
the_map zero = some tt
the_map (suc n) = none

abbrev log_map : Maps
log_map = record {
  Store = Log;
  Identity = ℕ;
  Ref = Unit {0};
  In = ℕ;
  Out = Entry;
  Snapshot = Entry;
  resolve = λ _ id. the_map id;
  get = λ s _ j. look_up s j;
  contains_key = λ s _ j. is_some (look_up s j);
  len = λ s _. length (live s);
  keys = λ s _. map (λ e. e.0) (live s);
  iter = λ s _. live s;
  insert = λ s _ key v. (key, some (number v)) ∷ s;
  insert_text = λ s _ key content. ((key, some (text content)) ∷ s, suc (length s));
  remove = λ s _ key. (key, none) ∷ s;
  clear = λ s _. [];
  out_to_any = λ _ v. v;
}

log_map-IsMap : IsMap log_map (λ v new. new ≡ number v) (λ content _ new. new ≡ text content)
log_map-IsMap = record {
  insert-get = λ s m key v. (number v, refl, λ j. refl);
  insert_text-get = λ s m key content. (text content, refl, λ j. refl);
  remove-get = λ s m key j. refl;
  clear-get = λ s m j. refl;
}

abbrev counts : Log
counts = (codes "a", some (number 1)) ∷ (codes "b", some (number 2)) ∷ []

performed-MapStep_example :
    MapStep
      (λ v new. new ≡ number v)
      (λ content _ new. new ≡ text content)
      (λ v. v)
      (delete_op (codes "b"))
      (entries log_map counts (some tt))
      (entries log_map (performed log_map counts 0 (delete_op (codes "b"))).0 (some tt))
      (performed log_map counts 0 (delete_op (codes "b"))).1
performed-MapStep_example =
    performed-MapStep log_map (λ v new. new ≡ number v) (λ content _ new. new ≡ text content)
      log_map-IsMap counts 0 (delete_op (codes "b"))

-- Runs of the model.
delete-replies :
    delete log_map counts 0 (codes "b") ≡ ((codes "b", none) ∷ counts, ok (some (number 2)))
unfolding delete str_eq
delete-replies = refl

get-after_set : get log_map (set log_map counts 0 (codes "a") 7).0 0 (codes "a") ≡ some (number 7)
unfolding get set str_eq
get-after_set = refl

keys-after_delete : keys log_map (delete log_map counts 0 (codes "a")).0 0 ≡ codes "b" ∷ []
unfolding keys delete str_eq
keys-after_delete = refl
