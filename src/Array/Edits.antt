-- ===== src/Array/Edits.antt =====
-- What the writes do to the elements, said as edits of a list.
use yrby.Base.{
  ℕ, zero, suc, ◌<◌, ◌≤◌, ◌≡◌, ◌∙◌, refl, sym, subst, ap, ltb, Option, none, some, List, [], ◌∷◌,
  ◌++◌, length, take, skip, get_elem?, arith, Option-cases, Bool-cases, inl, inr,
}
use yrby.Base.Int.{ℤ, pos, negsuc}
use yrby.Base.Result.{Result, ok, err}
use yrby.Shared.Index.{insert_index, element_index}
use yrby.Shared.Index.Ruby.{place, insert_index-place, IsElement, element_index-IsElement}
use yrby.Array.{Arrays, Written, insert_at, push, delete_at, clear, set}

-- What the source relies on: the reads show the elements, and an insertion or a removal inside the
-- array puts in or takes out just that. `IsStored` relates a value given to
-- what is stored for it, which is a new shared type where the value is a Hash.
pub record IsSequence (y : Arrays) (IsStored : y.In → y.Out → Type 0) : Type 0 where
  pub len-iter : (s : y.Store) (a : y.Ref) → y.len s a ≡ length (y.iter s a)
  pub get-iter : (s : y.Store) (a : y.Ref) (i : ℕ) → y.get s a i ≡ get_elem? (y.iter s a) i
  pub insert-iter :
      (s : y.Store) (a : y.Ref) (i : ℕ) (v : y.In)
      → i ≤ y.len s a
      → (new : y.Out) × IsStored v new
        × (y.iter (y.insert s a i v) a ≡ take i (y.iter s a) ++ new ∷ skip i (y.iter s a))
  pub remove-iter :
      (s : y.Store) (a : y.Ref) (i : ℕ)
      → i < y.len s a
      → y.iter (y.remove s a i) a ≡ take i (y.iter s a) ++ skip (suc i) (y.iter s a)
  pub clear-iter : (s : y.Store) (a : y.Ref) → y.iter (y.remove_range s a 0 (y.len s a)) a ≡ []

-- The writes, with the indexes as Ruby gives them.
pub data Op (V : Type 0) : Type 0 where
  insert_op : ℤ → V → Op V
  push_op : V → Op V
  delete_op : ℤ → Op V
  set_op : ℤ → V → Op V
  clear_op : Op V

-- What the elements become, `none` where the operation raises. An insertion past either end is
-- clamped; a deletion outside the array changes nothing.
pub data EditStep {V E : Type 0} (IsStored : V → E → Type 0)
    : Op V → List E → Option (List E) → Type 0 where
  inserts :
      (index : ℤ) (v : V) (new : E) (xs : List E)
      → IsStored v new
      → EditStep IsStored
          (insert_op index v)
          xs
          (some (take (place index (length xs)) xs ++ new ∷ skip (place index (length xs)) xs))
  pushes :
      (v : V) (new : E) (xs : List E)
      → IsStored v new
      → EditStep IsStored (push_op v) xs (some (xs ++ new ∷ []))
  deletes :
      (index : ℤ) (k : ℕ) (xs : List E)
      → IsElement index (length xs) k
      → EditStep IsStored (delete_op index) xs (some (take k xs ++ skip (suc k) xs))
  keeps :
      (index : ℤ) (xs : List E)
      → ((k : ℕ) → ¬ IsElement index (length xs) k)
      → EditStep IsStored (delete_op index) xs (some xs)
  sets :
      (index : ℤ) (v : V) (new : E) (k : ℕ) (xs : List E)
      → IsStored v new
      → IsElement index (length xs) k
      → EditStep IsStored (set_op index v) xs (some (take k xs ++ new ∷ skip (suc k) xs))
  raises :
      (index : ℤ) (v : V) (xs : List E)
      → ((k : ℕ) → ¬ IsElement index (length xs) k)
      → EditStep IsStored (set_op index v) xs none
  clears : (xs : List E) → EditStep IsStored clear_op xs (some [])

-- Performing a write.
module _ (y : Arrays) (s : y.Store) (id : y.Identity) where
  abbrev pub unreplied : {A : Type 0} → Written y A → Written y (Unit {0})
  unreplied (t, ok reply) = (t, ok tt)
  unreplied (t, err message) = (t, err message)

  abbrev pub performed : Op y.In → Written y (Unit {0})
  performed (insert_op index v) = insert_at y s id index v
  performed (push_op v) = push y s id v
  performed (delete_op index) = unreplied (delete_at y s id index)
  performed (set_op index v) = set y s id index v
  performed clear_op = clear y s id

-- The elements that a write leaves, `none` where it raises.
abbrev pub left_by : {S A E : Type 0} → (S → List E) → S × Result A → Option (List E)
left_by elements (s, ok reply) = some (elements s)
left_by elements (s, err message) = none

out_of_range :
    (index : ℤ) (len : ℕ)
    → len < 4294967296
    → element_index index len ≡ none
    → (k : ℕ) → ¬ IsElement index len k
out_of_range index len h e k q = let found = (element_index-IsElement index len k h).1 q in cc

take_all : {A : Type 0} (xs : List A) → take (length xs) xs ≡ xs
take_all [] = refl
take_all (x ∷ xs) = ap (λ ts. x ∷ ts) (take_all xs)

pub skip_all : {A : Type 0} (xs : List A) → skip (length xs) xs ≡ []
skip_all [] = refl
skip_all (x ∷ xs) = skip_all xs

module _ {A : Type 0} (rest : List A) where
  take_front : (k : ℕ) (xs : List A) → k ≤ length xs → take k (take k xs ++ rest) ≡ take k xs
  take_front zero xs h = refl
  take_front (suc k) [] h = absurd (omega (arith, h))
  take_front (suc k) (x ∷ xs) h = ap (λ ts. x ∷ ts) (take_front k xs (omega (arith, h)))

  skip_front : (k : ℕ) (xs : List A) → k ≤ length xs → skip k (take k xs ++ rest) ≡ rest
  skip_front zero xs h = refl
  skip_front (suc k) [] h = absurd (omega (arith, h))
  skip_front (suc k) (x ∷ xs) h = skip_front k xs (omega (arith, h))

  front_length : (k : ℕ) (xs : List A) → k ≤ length xs → k ≤ length (take k xs ++ rest)
  front_length zero xs h = omega arith
  front_length (suc k) [] h = absurd (omega (arith, h))
  front_length (suc k) (x ∷ xs) h = omega (arith, front_length k xs (omega (arith, h)))

appended :
    {A : Type 0} (new : A) (n : ℕ) (xs : List A)
    → n ≡ length xs
    → take n xs ++ new ∷ skip n xs ≡ xs ++ new ∷ []
appended new n xs e = rw (e, take_all xs, skip_all xs) refl

emptied :
    {V E : Type 0} (IsStored : V → E → Type 0) (xs : List E)
    → length xs ≡ 0
    → EditStep IsStored clear_op xs (some xs)
emptied IsStored [] e = clears []
emptied IsStored (x ∷ xs) e = absurd (omega (arith, e))

module _ (y : Arrays) (IsStored : y.In → y.Out → Type 0) (laws : IsSequence y IsStored)
    (s : y.Store) (id : y.Identity) (a : y.Ref) (h : y.resolve s id ≡ some a)
    (short : y.len s a < 4294967296) where
  abbrev Steps : {A : Type 0} → Op y.In → Written y A → Type 0
  Steps op w = EditStep IsStored op (y.iter s a) (left_by (λ t. y.iter t a) w)

  insert_at-EditStep : (index : ℤ) (v : y.In) → Steps (insert_op index v) (insert_at y s id index v)
  unfolding insert_at
  insert_at-EditStep index v =
      let p = insert_index-place index (y.len s a) (short) in
      let q = laws.insert-iter s a (insert_index index (y.len s a)) v p.1 in
      rw (h, q.2, p.0, laws.len-iter s a) (inserts index v q.0 (y.iter s a) q.1)

  push-EditStep : (v : y.In) → Steps (push_op v) (push y s id v)
  unfolding push insert_at
  push-EditStep v =
      let p = insert_index-place (negsuc 0) (y.len s a) (short) in
      let q = laws.insert-iter s a (insert_index (negsuc 0) (y.len s a)) v p.1 in
      rw h (
        subst (λ ys. EditStep IsStored (push_op v) (y.iter s a) (some ys))
          (sym (
            q.2
            ∙ appended q.0 (insert_index (negsuc 0) (y.len s a)) (y.iter s a)
                (omega (arith, p.0, laws.len-iter s a))))
          (pushes v q.0 (y.iter s a) q.1))

  element_bound : (index : ℤ) (len k : ℕ) → IsElement index len k → k < len
  element_bound (pos n) len k q = q.1
  element_bound (negsuc n) len k q = omega (arith, q)

  delete_at-EditStep :
      (index : ℤ) → Steps (delete_op index) (unreplied y s id (delete_at y s id index))
  unfolding delete_at
  delete_at-EditStep index = elim (Option-cases (element_index index (y.len s a))) [
    | inl e ↦
        rw (h, e)
          (keeps index (y.iter s a) (
            subst (λ n. (k : ℕ) → ¬ IsElement index n k) (laws.len-iter s a)
              (out_of_range index (y.len s a) (short) e)))
    | inr (k, e) ↦
        let q = (element_index-IsElement index (y.len s a) k (short)).0 e in
        rw (h, e, laws.remove-iter s a k (element_bound index (y.len s a) k q))
          (deletes index k (y.iter s a) (subst (λ n. IsElement index n k) (laws.len-iter s a) q))
  ]

  clear-EditStep : Steps clear_op (clear y s id)
  unfolding clear
  clear-EditStep = elim (Bool-cases (ltb 0 (y.len s a))) [
    | inl e ↦ rw (h, e, laws.clear-iter s a) (clears (y.iter s a))
    | inr e ↦ rw (h, e) (emptied IsStored (y.iter s a) (ground (arith, e, laws.len-iter s a)))
  ]

  replaced :
      (k : ℕ) (v : y.In)
      → k < y.len s a
      → (new : y.Out) × IsStored v new
        × (y.iter (y.insert (y.remove s a k) a k v) a
            ≡ take k (y.iter s a) ++ new ∷ skip (suc k) (y.iter s a))
  replaced k v b =
      let xs = y.iter s a in
      let t = y.remove s a k in
      let fits : k ≤ length xs = omega (arith, b, laws.len-iter s a) in
      let gone = laws.remove-iter s a k b in
      let q = laws.insert-iter t a k v (
        subst (λ n. k ≤ n) (sym (laws.len-iter t a ∙ ap length gone))
          (front_length (skip (suc k) xs) k xs fits)) in
      (
        q.0,
        q.1,
        q.2
            ∙ ap (λ zs. take k zs ++ q.0 ∷ skip k zs) gone
            ∙ rw (take_front (skip (suc k) xs) k xs fits, skip_front (skip (suc k) xs) k xs fits)
                refl,
      )

  set-EditStep : (index : ℤ) (v : y.In) → Steps (set_op index v) (set y s id index v)
  unfolding set
  set-EditStep index v = elim (Option-cases (element_index index (y.len s a))) [
    | inl e ↦
        rw (h, e)
          (raises index v (y.iter s a) (
            subst (λ n. (k : ℕ) → ¬ IsElement index n k) (laws.len-iter s a)
              (out_of_range index (y.len s a) (short) e)))
    | inr (k, e) ↦
        let q = (element_index-IsElement index (y.len s a) k (short)).0 e in
        let r = replaced k v (element_bound index (y.len s a) k q) in
        rw (h, e, r.2)
          (sets index v r.0 k (y.iter s a) r.1
            (subst (λ n. IsElement index n k) (laws.len-iter s a) q))
  ]

  -- Where the handle's array is there, with a length that is a `u32`, and yrs reads and edits
  -- sequences as documented, each write
  -- leaves the elements edited at the place or the element that its index names from either end: an
  -- insertion is clamped into the array, a deletion outside changes nothing, and setting an element
  -- outside raises.
  pub performed-EditStep :
      (op : Op y.In)
      → EditStep IsStored op (y.iter s a) (left_by (λ t. y.iter t a) (performed y s id op))
  performed-EditStep (insert_op index v) = insert_at-EditStep index v
  performed-EditStep (push_op v) = push-EditStep v
  performed-EditStep (delete_op index) = delete_at-EditStep index
  performed-EditStep (set_op index v) = set-EditStep index v
  performed-EditStep clear_op = clear-EditStep
