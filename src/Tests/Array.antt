-- ===== src/Tests/Array.antt =====
-- The theorems on shared arrays at a concrete sequence: a document that is one list of numbers.
use yrby.Base.{
  ℕ, suc, ◌+◌, ◌≡◌, refl, some, List, [], ◌∷◌, ◌++◌, length, take, skip, get_elem?, codes, arith,
}
use yrby.Base.Int.{pos, negsuc}
use yrby.Base.Result.{ok}
use yrby.Shared.Index.{insert_index, element_index}
use yrby.Array.{Arrays, insert_at, delete_at, set}
use yrby.Array.Edits.{
  IsSequence, set_op, performed, EditStep, left_by, performed-EditStep, skip_all,
}
use yrby.Array.Raises.{performed-raises}

abbrev numbers : Arrays
numbers = record {
  Store = List ℕ;
  Identity = Unit {0};
  Ref = Unit {0};
  In = ℕ;
  Out = ℕ;
  Snapshot = ℕ;
  resolve = λ _ _. some tt;
  len = λ s _. length s;
  get = λ s _ i. get_elem? s i;
  iter = λ s _. s;
  insert = λ s _ i v. take i s ++ v ∷ skip i s;
  remove = λ s _ i. take i s ++ skip (suc i) s;
  remove_range = λ s _ from count. take from s ++ skip (from + count) s;
  out_to_any = λ _ v. v;
}

cleared_list : (n : ℕ) (xs : List ℕ) → n ≡ length xs → skip n xs ≡ []
cleared_list n xs e = rw e (skip_all xs)

numbers-IsSequence : IsSequence numbers (λ v new. v ≡ new)
numbers-IsSequence = record {
  len-iter = λ s a. refl;
  get-iter = λ s a i. refl;
  insert-iter = λ s a i v h. (v, refl, refl);
  remove-iter = λ s a i h. refl;
  clear-iter = λ s a. cleared_list (0 + length s) s (omega arith);
}

abbrev three : List ℕ
three = 7 ∷ 8 ∷ 9 ∷ []

performed-EditStep_example :
    EditStep
      (λ v new. v ≡ new)
      (set_op (negsuc 0) 5)
      three
      (left_by (λ t. t) (performed numbers three tt (set_op (negsuc 0) 5)))
performed-EditStep_example =
    performed-EditStep numbers (λ v new. v ≡ new) numbers-IsSequence three tt tt refl (omega arith)
      (set_op (negsuc 0) 5)

performed-raises_example : (performed numbers three tt (set_op (pos 3) 5)).0 ≡ three
unfolding set element_index
performed-raises_example =
    performed-raises numbers three tt (set_op (pos 3) 5) (codes "index out of range") refl

-- Runs of the model.
set-last : set numbers three tt (negsuc 0) 5 ≡ (7 ∷ 8 ∷ 5 ∷ [], ok tt)
unfolding set element_index
set-last = refl

delete_at-first : delete_at numbers three tt (pos 0) ≡ (8 ∷ 9 ∷ [], ok (some 7))
unfolding delete_at element_index
delete_at-first = refl

insert_at-clamped : insert_at numbers three tt (negsuc 98) 5 ≡ (5 ∷ 7 ∷ 8 ∷ 9 ∷ [], ok tt)
unfolding insert_at insert_index
insert_at-clamped = refl
