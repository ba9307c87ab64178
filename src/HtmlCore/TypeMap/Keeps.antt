-- ===== src/HtmlCore/TypeMap/Keeps.antt =====
-- An entry that is inserted into the type map stays.
use yrby.Base.{
  ◌≡◌, refl, ap, ◌∙◌, Bool, true, false, Option, none, some, [], ◌∷◌, Str, str_eq, str_eq_refl,
  contains_key, arith, inl, inr, Bool-cases,
}
use yrby.HtmlCore.Outcome.{Outcome, panics, returns, and_then}
use yrby.HtmlCore.TypeMap.{TypeInfo, TypeMap}
use yrby.HtmlCore.TypeMap.Changes.{change_entry, change_inserted}

pub change_entry-inserts :
    (ty : Str) (f : TypeInfo → TypeInfo) (map : TypeMap)
    → contains_key (change_entry ty f map) ty ≡ true
unfolding change_entry contains_key
change_entry-inserts ty f [] = ground (arith, str_eq_refl ty)
change_entry-inserts ty f ((k, info) ∷ map) =
    ground (arith, str_eq_refl ty, change_entry-inserts ty f map)

change_entry-keeps :
    (ty : Str) (f : TypeInfo → TypeInfo) (map : TypeMap) (key : Str)
    → contains_key map key ≡ true
    → contains_key (change_entry ty f map) key ≡ true
unfolding change_entry contains_key
change_entry-keeps ty f [] key h = cc
change_entry-keeps ty f ((k, info) ∷ map) key h = ground (arith, change_entry-keeps ty f map key)

-- The code returned, and every key is still there.
pub record Keeps (map : TypeMap) (o : Outcome TypeMap) : Type 0 where
  pub result : TypeMap
  pub returned : o ≡ returns result
  pub kept : (key : Str) → contains_key map key ≡ true → contains_key result key ≡ true

Keeps-at :
    (map : TypeMap) (k : Str) (info info' : TypeInfo) (o : Outcome TypeMap)
    → Keeps map o
    → Keeps ((k, info) ∷ map) (elim o [ panics ↦ panics | returns m ↦ returns ((k, info') ∷ m) ])
unfolding contains_key
Keeps-at map k info info' o p = record {
  result = (k, info') ∷ p.result;
  returned = rw p.returned refl;
  kept = λ key h. ground (arith, p.kept key);
}

pub change_inserted-Keeps :
    (ty : Str) (f : TypeInfo → TypeInfo) (map : TypeMap)
    → contains_key map ty ≡ true
    → Keeps map (change_inserted ty f map)
unfolding change_inserted contains_key
change_inserted-Keeps ty f [] h = cc
change_inserted-Keeps ty f ((k, info) ∷ map) h = elim (Bool-cases (str_eq k ty)) [
  | inl e ↦ rw e (record { result = (k, f info) ∷ map; returned = refl; kept = λ key h. h })
  | inr e ↦ rw e (Keeps-at map k info info _ (change_inserted-Keeps ty f map (ground arith)))
]

pub and_then-Keeps :
    (map : TypeMap) (o : Outcome TypeMap) (f : TypeMap → Outcome TypeMap)
    → Keeps map o
    → ((m : TypeMap)
        → ((key : Str) → contains_key map key ≡ true → contains_key m key ≡ true)
        → Keeps m (f m))
    → Keeps map (and_then o f)
and_then-Keeps map o f p h =
    let q = h p.result p.kept in
    record {
      result = q.result;
      returned = ap (λ r. and_then r f) p.returned ∙ q.returned;
      kept = λ key k. q.kept key (p.kept key k);
    }

-- A result for a document that is, or is not, ProseMirror-shaped.
abbrev pub IsCollected : Bool → Outcome (Option TypeMap) → Type 0
IsCollected b panics = ⊥
IsCollected b (returns none) = b ≡ false
IsCollected b (returns (some map)) = b ≡ true

pub Keeps-change_entry :
    (ty : Str) (f : TypeInfo → TypeInfo) (map : TypeMap) (o : Outcome TypeMap)
    → Keeps (change_entry ty f map) o
    → Keeps map o
Keeps-change_entry ty f map o p = record {
  result = p.result;
  returned = p.returned;
  kept = λ key h. p.kept key (change_entry-keeps ty f map key h);
}
