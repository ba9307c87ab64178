-- ===== src/Map/Edits.antt =====
-- What the writes do to the entries of a map, and what they reply.
use yrby.Base.{◌≡◌, refl, sym, subst, if◌then◌else◌, Option, none, some, Str, str_eq, codes}
use yrby.Base.Result.{Result, ok, err}
use yrby.Map.{Maps, map_out, set_in, set, set_text_in, set_text, deleted_in, delete, cleared, clear}

-- The entries, by key.
abbrev pub Entries : Type 0 → Type 0
Entries O = Str → Option O

-- The entries with that of a key put in place, or taken out.
abbrev pub with_entry : {O : Type 0} → Str → Option O → Entries O → Entries O
with_entry key entry m j = if str_eq j key then entry else m j

-- What the source relies on: a value or a text that is stored is found under its key, with every
-- other entry as it was; `IsStored v new` and `IsNew content text new` say that the document's
-- `new` is `v`, and the text `text` of that content.
pub record IsMap (y : Maps) (IsStored : y.In → y.Out → Type 0)
    (IsNew : Str → y.Identity → y.Out → Type 0) : Type 0 where
  pub insert-get :
      (s : y.Store) (m : y.Ref) (key : Str) (v : y.In)
      → (new : y.Out) × IsStored v new
        × ((j : Str) → y.get (y.insert s m key v) m j ≡ with_entry key (some new) (y.get s m) j)
  pub insert_text-get :
      (s : y.Store) (m : y.Ref) (key content : Str)
      → (new : y.Out) × IsNew content (y.insert_text s m key content).1 new
        × ((j : Str)
            → y.get (y.insert_text s m key content).0 m j ≡ with_entry key (some new) (y.get s m) j)
  pub remove-get :
      (s : y.Store) (m : y.Ref) (key j : Str)
      → y.get (y.remove s m key) m j ≡ with_entry key none (y.get s m) j
  pub clear-get : (s : y.Store) (m : y.Ref) (j : Str) → y.get (y.clear s m) m j ≡ none

pub data Op (I : Type 0) : Type 0 where
  set_op : Str → I → Op I
  set_text_op : Str → Str → Op I
  delete_op : Str → Op I
  clear_op : Op I

-- What a write replies: nothing, the identity of a text, or the value that was there.
pub data Reply (T S : Type 0) : Type 0 where
  nothing : Reply T S
  text : T → Reply T S
  value : Option S → Reply T S

abbrev replied : {A B : Type 0} → (A → B) → Result A → Result B
replied f (ok a) = ok (f a)
replied f (err message) = err message

module _ (y : Maps) where
  abbrev pub Replied : Type 0
  Replied = y.Store × Result (Reply y.Identity y.Snapshot)

  abbrev pub performed : y.Store → y.Identity → Op y.In → Replied
  performed s id (set_op key v) =
      let (after, r) = set y s id key v in (after, replied (λ _. nothing) r)
  performed s id (set_text_op key content) =
      let (after, r) = set_text y s id key content in (after, replied text r)
  performed s id (delete_op key) = let (after, r) = delete y s id key in (after, replied value r)
  performed s id clear_op = let (after, r) = clear y s id in (after, replied (λ _. nothing) r)

  -- The entries of a map that is there.
  abbrev pub entries : y.Store → Option y.Ref → Option (Entries y.Out)
  entries s none = none
  entries s (some m) = some (y.get s m)

abbrev found : {A B : Type 0} → (A → B) → Option A → Option B
found f none = none
found f (some a) = some (f a)

-- What the entries become, and the reply; `none` where the map has been deleted.
pub data MapStep {I O T S : Type 0} (IsStored : I → O → Type 0) (IsNew : Str → T → O → Type 0)
    (read : O → S)
    : Op I → Option (Entries O) → Option (Entries O) → Result (Reply T S) → Type 0 where
  sets :
      (key : Str) (v : I) (new : O) (m : Entries O)
      → IsStored v new
      → MapStep IsStored IsNew read
          (set_op key v)
          (some m)
          (some (with_entry key (some new) m))
          (ok nothing)
  sets_text :
      (key content : Str) (t : T) (new : O) (m : Entries O)
      → IsNew content t new
      → MapStep IsStored IsNew read
          (set_text_op key content)
          (some m)
          (some (with_entry key (some new) m))
          (ok (text t))
  deletes :
      (key : Str) (m : Entries O)
      → MapStep IsStored IsNew read
          (delete_op key)
          (some m)
          (some (with_entry key none m))
          (ok (value (found read (m key))))
  clears :
      (m : Entries O)
      → MapStep IsStored IsNew read clear_op (some m) (some (λ _. none)) (ok nothing)
  set_gone :
      (key : Str) (v : I)
      → MapStep IsStored IsNew read (set_op key v) none none (err (codes "map no longer exists"))
  set_text_gone :
      (key content : Str)
      → MapStep IsStored IsNew read
          (set_text_op key content)
          none
          none
          (err (codes "map no longer exists"))
  delete_gone :
      (key : Str) → MapStep IsStored IsNew read (delete_op key) none none (ok (value none))
  clear_gone : MapStep IsStored IsNew read clear_op none none (ok nothing)

module _ (y : Maps) (IsStored : y.In → y.Out → Type 0) (IsNew : Str → y.Identity → y.Out → Type 0)
    (laws : IsMap y IsStored IsNew) (s : y.Store) where
  abbrev Edit : Op y.In → Option y.Ref → Replied y → Type 0
  Edit op o w = MapStep IsStored IsNew (y.out_to_any s) op (entries y s o) (entries y w.0 o) w.1

  set_in-Edit :
      (o : Option y.Ref) (key : Str) (v : y.In)
      → Edit
          (set_op key v)
          o
          ((set_in y s o key v).0, replied (λ _. nothing) (set_in y s o key v).1)
  set_in-Edit none key v = set_gone key v
  set_in-Edit (some m) key v =
      let (new, stored, e) = laws.insert-get s m key v in
      subst
        (λ f.
          MapStep IsStored IsNew (y.out_to_any s) (set_op key v) (some (y.get s m)) (some f)
            (ok nothing))
        (sym (λ i j. e j i)) (sets key v new (y.get s m) stored)

  set_text_in-Edit :
      (o : Option y.Ref) (key content : Str)
      → Edit
          (set_text_op key content)
          o
          ((set_text_in y s o key content).0, replied text (set_text_in y s o key content).1)
  set_text_in-Edit none key content = set_text_gone key content
  set_text_in-Edit (some m) key content =
      let (new, made, e) = laws.insert_text-get s m key content in
      subst
        (λ f.
          MapStep IsStored IsNew (y.out_to_any s) (set_text_op key content) (some (y.get s m))
            (some f) (ok (text (y.insert_text s m key content).1)))
        (sym (λ i j. e j i))
        (sets_text key content (y.insert_text s m key content).1 new (y.get s m) made)

  map_out-found : (v : Option y.Out) → found (y.out_to_any s) v ≡ map_out y s v
  map_out-found none = refl
  map_out-found (some v) = refl

  deleted_in-Edit :
      (o : Option y.Ref) (key : Str)
      → Edit (delete_op key) o ((deleted_in y s o key).0, replied value (deleted_in y s o key).1)
  deleted_in-Edit none key = delete_gone key
  deleted_in-Edit (some m) key =
      subst
        (λ (p : Entries y.Out × Option y.Snapshot).
          MapStep IsStored IsNew (y.out_to_any s) (delete_op key) (some (y.get s m)) (some p.0)
            (ok (value p.1)))
        (λ i. (λ j. sym (laws.remove-get s m key j) i, map_out-found (y.get s m key) i))
        (deletes key (y.get s m))

  cleared-Edit :
      (o : Option y.Ref)
      → Edit clear_op o ((cleared y s o).0, replied (λ _. nothing) (cleared y s o).1)
  cleared-Edit none = clear_gone
  cleared-Edit (some m) =
      subst
        (λ f.
          MapStep IsStored IsNew (y.out_to_any s) clear_op (some (y.get s m)) (some f) (ok nothing))
        (sym (λ i j. laws.clear-get s m j i)) (clears (y.get s m))

  -- Every write of a handle edits the entries of its map and replies as it should: setting puts the
  -- value or the new text under its key and nowhere else, deleting takes out just that key and
  -- replies its previous value, as read before, and clearing leaves no entry. Where the map has
  -- been deleted, setting raises, and deleting and clearing do nothing.
  pub performed-MapStep :
      (id : y.Identity) (op : Op y.In)
      → MapStep IsStored IsNew
          (y.out_to_any s)
          op
          (entries y s (y.resolve s id))
          (entries y (performed y s id op).0 (y.resolve s id))
          (performed y s id op).1
  unfolding set set_text delete clear
  performed-MapStep id (set_op key v) = set_in-Edit (y.resolve s id) key v
  performed-MapStep id (set_text_op key content) = set_text_in-Edit (y.resolve s id) key content
  performed-MapStep id (delete_op key) = deleted_in-Edit (y.resolve s id) key
  performed-MapStep id clear_op = cleared-Edit (y.resolve s id)
