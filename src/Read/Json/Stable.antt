-- ===== src/Read/Json/Stable.antt =====
-- The JSON of a value does not depend on the order in which hash maps are iterated.
use yrby.Base.{◌≡◌, ◌≢◌, ◌∙◌, refl, ap, Bool, true, false, ◌∷◌, ◌++◌, Str, codes}
use yrby.Base.Sort.{sort_by_key}
use yrby.Base.Sort.Order.{sort_by_key-swap, sort_by_key-cons}
use yrby.Yrs.{Yrs, Any, Items, end, item, Entries, empty, entry, Stored}
use yrby.Read.Json.{
  scalar_json, any_to_json, write_items, json_pairs, write_pairs, comma, HeldEntries, entries_of,
  map_json,
}

-- Values that differ only in the order of their maps' entries, at any depth.
mutual
  pub data Same {F : Type 0} : Any F → Any F → Type 0 where
    same : (a : Any F) → Same a a
    same_array : (xs zs : Items F) → SameItems xs zs → Same (Any.array xs) (Any.array zs)
    same_map : (m n : Entries F) → SameEntries m n → Same (Any.map m) (Any.map n)

  pub data SameItems {F : Type 0} : Items F → Items F → Type 0 where
    both_end : SameItems end end
    both_item :
        (a b : Any F) (xs zs : Items F)
        → Same a b
        → SameItems xs zs
        → SameItems (item a xs) (item b zs)

  pub data SameEntries {F : Type 0} : Entries F → Entries F → Type 0 where
    both_empty : SameEntries empty empty
    both_entry :
        (k : Str) (a b : Any F) (m n : Entries F)
        → Same a b
        → SameEntries m n
        → SameEntries (entry k a m) (entry k b n)
    -- two neighbours change places
    swapped :
        (k j : Str) (a b : Any F) (m : Entries F)
        → k ≢ j
        → SameEntries (entry k a (entry j b m)) (entry j b (entry k a m))
    chained : (m n o : Entries F) → SameEntries m n → SameEntries n o → SameEntries m o

module _ (y : Yrs) where
  mutual
    unfolding any_to_json

    any_to_json-Same : (a b : Stored y) → Same a b → any_to_json y a ≡ any_to_json y b
    any_to_json-Same _ _ (same a) = refl
    any_to_json-Same _ _ (same_array xs zs h) =
        ap (λ s. codes "[" ++ (s ++ codes "]")) (write_items-Same true xs zs h)
    any_to_json-Same _ _ (same_map m n h) =
        ap (λ ps. codes "{" ++ (write_pairs true ps ++ codes "}")) (json_pairs-Same m n h)

    write_items-Same :
        (first : Bool) (xs zs : Items y.Float)
        → SameItems xs zs
        → write_items y first xs ≡ write_items y first zs
    write_items-Same first _ _ both_end = refl
    write_items-Same first _ _ (both_item a b xs zs h hs) =
        ap (λ s. comma first ++ (s ++ write_items y false xs)) (any_to_json-Same a b h)
        ∙ ap (λ s. comma first ++ (any_to_json y b ++ s)) (write_items-Same false xs zs hs)

    json_pairs-Same :
        (m n : Entries y.Float)
        → SameEntries m n
        → sort_by_key (json_pairs y m) ≡ sort_by_key (json_pairs y n)
    json_pairs-Same _ _ both_empty = refl
    json_pairs-Same _ _ (both_entry k a b m n h hs) =
        ap (λ s. sort_by_key ((k, (scalar_json y (Any.string k), s)) ∷ json_pairs y m))
          (any_to_json-Same a b h)
        ∙ sort_by_key-cons k _ (json_pairs y m) (json_pairs y n) (json_pairs-Same m n hs)
    json_pairs-Same _ _ (swapped k j a b m h) = sort_by_key-swap k j _ _ (json_pairs y m) h
    json_pairs-Same _ _ (chained m n o h hs) = json_pairs-Same m n h ∙ json_pairs-Same n o hs

  -- Two reads of a map that differ only in the order of entries, at any depth, give the same JSON.
  pub map_json-Same :
      (fields others : HeldEntries y.Float)
      → SameEntries (entries_of fields) (entries_of others)
      → map_json y fields ≡ map_json y others
  unfolding map_json
  map_json-Same fields others h = any_to_json-Same _ _ (same_map _ _ h)
