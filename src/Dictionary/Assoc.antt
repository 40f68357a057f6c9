-- ===== src/Dictionary/Assoc.antt =====
-- An association list: `std::unordered_map` as the code uses it, and the dictionary of the tests.
use order_book_sketch.Common.{
  ℕ, Bool, true, false, List, [], ◌∷◌, Option, none, some, ◌==◌, if◌then◌else◌, ◌≡◌, refl, arith,
}
use order_book_sketch.Dictionary.{Dictionary}

module _ {V : Type 0} where
  unfoldable pub find : ℕ → List (ℕ × V) → Option V
  find k [] = none
  find k ((j, v) ∷ m) = if j == k then some v else find k m

  unfoldable pub emplace : ℕ → V → List (ℕ × V) → List (ℕ × V) × V × Bool
  unfolding find
  emplace k v m = elim (find k m) [ none ↦ ((k, v) ∷ m, v, true) | some w ↦ (m, w, false) ]

  unfoldable pub erase : ℕ → List (ℕ × V) → List (ℕ × V)
  erase k [] = []
  erase k ((j, v) ∷ m) = if j == k then erase k m else (j, v) ∷ erase k m

  pub emplace_new :
      (k : ℕ) (v : V) (m : List (ℕ × V)) → find k m ≡ none → emplace k v m ≡ ((k, v) ∷ m, v, true)
  unfolding emplace
  emplace_new k v m e = rw (e, emplace)

  pub emplace_old :
      (k : ℕ) (v w : V) (m : List (ℕ × V)) → find k m ≡ some w → emplace k v m ≡ (m, w, false)
  unfolding emplace
  emplace_old k v w m e = rw (e, emplace)

  pub find-cons :
      (k q : ℕ) (v : V) (m : List (ℕ × V))
      → find q ((k, v) ∷ m) ≡ (if k == q then some v else find q m)
  unfolding find
  find-cons k q v m = refl

  pub find-erase :
      (k q : ℕ) (m : List (ℕ × V)) → find q (erase k m) ≡ (if k == q then none else find q m)
  unfolding find erase
  find-erase k q [] = ground arith
  find-erase k q ((j, v) ∷ m) = ground (arith, find-erase k q m)

pub find_empty : {V : Type 0} (k : ℕ) → find {V = V} k [] ≡ none
unfolding find
find_empty k = refl

abbrev pub assoc_list : (V : Type 0) → Dictionary V
assoc_list V = record {
  Map = List (ℕ × V);
  IsValid = λ _. Unit {0};
  IsKey = λ _. Unit {0};
  empty = [];
  find = find;
  emplace = emplace;
  erase = erase;
  emplace_new = λ k v m _ _ e. rw (emplace_new k v m e) (refl, refl);
  emplace_old = λ k v m w _ _ e. rw (emplace_old k v w m e) (refl, refl);
  find-emplace_new = λ k q v m _ _ _ e. rw (emplace_new k v m e) (find-cons k q v m);
  find-emplace_old = λ k q v m w _ _ _ e. rw (emplace_old k v w m e) refl;
  find-erase = λ k q m w _ _ _ e. find-erase k q m;
  emplace-IsValid = λ _ _ _ _ _. tt;
  erase-IsValid = λ _ _ _ _ _ _. tt;
  empty-IsValid = tt;
  find-empty = λ k _. find_empty k;
}
