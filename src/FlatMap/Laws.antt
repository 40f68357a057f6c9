-- ===== src/FlatMap/Laws.antt =====
-- The flat map of FlatMap.antt as a finite map: what each operation does to the lookups, and that
-- the keys stay in descending order.
use mathlib.Core.Option
use order_book_sketch.Common.{
  ℕ, zero, suc, ℤ, List, [], ◌∷◌, Option, none, some, ltb_ℤ, ◌==ℤ◌, ◌<ℤ◌, ◌≤ℤ◌, ◌≢◌, Bool-cases,
  Option-cases, inl, inr, if◌then◌else◌, ◌≡◌, refl, arith, last?,
}
use order_book_sketch.FlatMap.{find, insert, insert_pos, update_at, value_at, erase_at}

module _ {V : Type 0} where
  -- all keys are below `k`
  abbrev pub Below : ℤ → List (ℤ × V) → Type 0
  Below k [] = Unit
  Below k ((j, v) ∷ m) = (j <ℤ k) × Below k m

  abbrev pub IsDescending : List (ℤ × V) → Type 0
  IsDescending [] = Unit
  IsDescending ((j, v) ∷ m) = Below j m × IsDescending m

  -- the value under a key
  unfoldable pub lookup : ℤ → List (ℤ × V) → Option V
  lookup q [] = none
  lookup q ((j, v) ∷ m) = if j ==ℤ q then some v else lookup q m

  Below-trans : (j k : ℤ) (m : List (ℤ × V)) → j <ℤ k → Below j m → Below k m
  Below-trans j k [] h b = tt
  Below-trans j k ((i, v) ∷ m) h b = (omega arith, Below-trans j k m h b.1)

  Below-lookup : (k : ℤ) (m : List (ℤ × V)) → Below k m → lookup k m ≡ none
  unfolding lookup
  Below-lookup k [] b = refl
  Below-lookup k ((j, v) ∷ m) b = ground (arith, Below-lookup k m b.1)

  pub find-none : (k : ℤ) (m : List (ℤ × V)) → find k m ≡ none → lookup k m ≡ none
  unfolding find lookup
  find-none k [] h = refl
  find-none k ((j, v) ∷ m) h = ground (arith, find-none k m)

  pub find-value_at :
      (k : ℤ) (m : List (ℤ × V)) (i : ℕ) → find k m ≡ some i → value_at i m ≡ lookup k m
  unfolding find value_at lookup
  find-value_at k [] i h = refl
  find-value_at k ((j, v) ∷ m) zero h = ground (arith, find-value_at k m 0)
  find-value_at k ((j, v) ∷ m) (suc i) h = ground (arith, find-value_at k m i)

  pub insert-find :
      (k : ℤ) (d : V) (m : List (ℤ × V))
      → IsDescending m
      → find k (insert k d m) ≡ some (insert_pos k m)
  unfolding find insert insert_pos
  insert-find k d [] h = ground arith
  insert-find k d ((j, v) ∷ m) h = ground (arith, insert-find k d m h.1)

  pub lookup-insert :
      (k q : ℤ) (d : V) (m : List (ℤ × V))
      → IsDescending m
      → lookup q (insert k d m)
        ≡ (if k ==ℤ q then some (Option.get_or (lookup k m) d) else lookup q m)
  unfolding insert lookup
  lookup-insert k q d [] h = ground arith
  lookup-insert k q d ((j, v) ∷ m) h = elim (Bool-cases (j ==ℤ k)) [
    | inl e ↦ rw e (ground arith)
    | inr ne ↦ elim (Bool-cases (ltb_ℤ j k)) [
      | inl lt ↦ rw (ne, lt) (ground (arith, Below-lookup k m, Below-trans j k m, ne, lt))
      | inr ge ↦ rw (ne, ge) (ground (arith, lookup-insert k q d m h.1))
    ]
  ]

  pub lookup-update_at :
      (k q : ℤ) (f : V → V) (m : List (ℤ × V)) (i : ℕ)
      → IsDescending m
      → find k m ≡ some i
      → lookup q (update_at i f m) ≡ (if k ==ℤ q then Option.map f (lookup k m) else lookup q m)
  unfolding find update_at lookup
  lookup-update_at k q f [] i h e = ground arith
  lookup-update_at k q f ((j, v) ∷ m) zero h e = ground arith
  lookup-update_at k q f ((j, v) ∷ m) (suc i) h e = ground (arith, lookup-update_at k q f m i h.1)

  pub find-update_at :
      (k : ℤ) (f : V → V) (m : List (ℤ × V)) (i : ℕ) → find k (update_at i f m) ≡ find k m
  unfolding find update_at
  find-update_at k f [] i = refl
  find-update_at k f ((j, v) ∷ m) zero = refl
  find-update_at k f ((j, v) ∷ m) (suc i) = ground (arith, find-update_at k f m i)

  pub lookup-erase_at :
      (k q : ℤ) (m : List (ℤ × V)) (i : ℕ)
      → IsDescending m
      → find k m ≡ some i
      → lookup q (erase_at i m) ≡ (if k ==ℤ q then none else lookup q m)
  unfolding find erase_at lookup
  lookup-erase_at k q [] i h e = ground arith
  lookup-erase_at k q ((j, v) ∷ m) zero h e =
      ground (arith, Below-lookup q m, Below-lookup j m h.0, λ (p : j ≡ q). rw p at h.0)
  lookup-erase_at k q ((j, v) ∷ m) (suc i) h e = ground (arith, lookup-erase_at k q m i h.1)

  Below-insert : (j k : ℤ) (d : V) (m : List (ℤ × V)) → k <ℤ j → Below j m → Below j (insert k d m)
  unfolding insert
  Below-insert j k d [] h b = (h, tt)
  Below-insert j k d ((i, v) ∷ m) h b = ground (arith, Below-insert j k d m h b.1)

  pub insert-IsDescending :
      (k : ℤ) (d : V) (m : List (ℤ × V)) → IsDescending m → IsDescending (insert k d m)
  unfolding insert
  insert-IsDescending k d [] h = (tt, tt)
  insert-IsDescending k d ((j, v) ∷ m) h =
      ground (arith, insert-IsDescending k d m h.1, Below-insert j k d m, Below-trans j k m)

  Below-update_at :
      (j : ℤ) (f : V → V) (m : List (ℤ × V)) (i : ℕ) → Below j m → Below j (update_at i f m)
  unfolding update_at
  Below-update_at j f [] i b = tt
  Below-update_at j f ((k, v) ∷ m) zero b = b
  Below-update_at j f ((k, v) ∷ m) (suc i) b = (b.0, Below-update_at j f m i b.1)

  pub update_at-IsDescending :
      (f : V → V) (m : List (ℤ × V)) (i : ℕ) → IsDescending m → IsDescending (update_at i f m)
  unfolding update_at
  update_at-IsDescending f [] i h = tt
  update_at-IsDescending f ((k, v) ∷ m) zero h = h
  update_at-IsDescending f ((k, v) ∷ m) (suc i) h =
      (Below-update_at k f m i h.0, update_at-IsDescending f m i h.1)

  Below-erase_at : (j : ℤ) (m : List (ℤ × V)) (i : ℕ) → Below j m → Below j (erase_at i m)
  unfolding erase_at
  Below-erase_at j [] i b = tt
  Below-erase_at j ((k, v) ∷ m) zero b = b.1
  Below-erase_at j ((k, v) ∷ m) (suc i) b = (b.0, Below-erase_at j m i b.1)

  pub erase_at-IsDescending :
      (m : List (ℤ × V)) (i : ℕ) → IsDescending m → IsDescending (erase_at i m)
  unfolding erase_at
  erase_at-IsDescending [] i h = tt
  erase_at-IsDescending ((k, v) ∷ m) zero h = h.1
  erase_at-IsDescending ((k, v) ∷ m) (suc i) h =
      (Below-erase_at k m i h.0, erase_at-IsDescending m i h.1)

  Below-lookup_le : (j q : ℤ) (m : List (ℤ × V)) → Below j m → lookup q m ≢ none → q <ℤ j
  unfolding lookup
  Below-lookup_le j q [] b h = absurd (h refl)
  Below-lookup_le j q ((i, v) ∷ m) b h = ground (arith, Below-lookup_le j q m b.1)

  -- `*rbegin()` has the least key.
  pub last?-least :
      (m : List (ℤ × V)) (k q : ℤ) (v : V)
      → IsDescending m
      → last? m ≡ some (k, v)
      → (lookup k m ≡ some v) × (lookup q m ≢ none → k ≤ℤ q)
  unfolding lookup
  last?-least [] k q v h e = cc
  last?-least ((j, w) ∷ []) k q v h e = ground arith
  last?-least ((j, w) ∷ (i, u) ∷ m) k q v h e =
      let ih = last?-least ((i, u) ∷ m) k q v h.1 e in
      ground (arith, ih, Below-lookup_le j k ((i, u) ∷ m) h.0)

  -- `insert` returns `begin()` exactly when no key is above its own.
  pub insert_pos-begin :
      (k q : ℤ) (m : List (ℤ × V))
      → IsDescending m
      → insert_pos k m ≡ 0
      → lookup q m ≢ none
      → q ≤ℤ k
  unfolding insert_pos lookup
  insert_pos-begin k q [] h e n = absurd (n refl)
  insert_pos-begin k q ((j, v) ∷ m) h e n = ground (arith, Below-lookup_le j q m h.0)

  pub insert_pos-not_begin :
      (k : ℤ) (m : List (ℤ × V))
      → IsDescending m
      → insert_pos k m ≢ 0
      → (q : ℤ) × (lookup q m ≢ none) × (k <ℤ q)
  unfolding insert_pos lookup
  insert_pos-not_begin k [] h n = absurd (n refl)
  insert_pos-not_begin k ((j, v) ∷ m) h n = (j, ground arith, ground arith)

  -- Under a key that is there `insert` finds it and changes nothing.
  pub insert-present :
      (k : ℤ) (d v : V) (m : List (ℤ × V))
      → IsDescending m
      → lookup k m ≡ some v
      → (insert k d m ≡ m) × (find k m ≡ some (insert_pos k m))
  unfolding insert insert_pos lookup find
  insert-present k d v [] h e = cc
  insert-present k d v ((j, w) ∷ m) h e =
      ground (arith, insert-present k d v m h.1, Below-lookup_le j k m h.0)

  pub last?-nonempty :
      (q : ℤ) (m : List (ℤ × V)) → lookup q m ≢ none → (k : ℤ) × (v : V) × (last? m ≡ some (k, v))
  unfolding lookup
  last?-nonempty q [] n = absurd (n refl)
  last?-nonempty q ((j, w) ∷ []) n = (j, w, refl)
  last?-nonempty q ((j, w) ∷ (i, u) ∷ m) n = last?-nonempty i ((i, u) ∷ m) (ground arith)

  pub find-some :
      (k : ℤ) (m : List (ℤ × V)) (i : ℕ) → find k m ≡ some i → (v : V) × (lookup k m ≡ some v)
  unfolding find lookup
  find-some k [] i h = cc
  find-some k ((j, v) ∷ m) i h = elim (Bool-cases (j ==ℤ k)) [
    | inl e ↦ (v, rw e)
    | inr n ↦ elim (Option-cases (find k m)) [
      | inl e ↦ absurd (ground (arith, n, e, h))
      | inr (i', e) ↦ let (u, f) = find-some k m i' e in (u, rw n f)
    ]
  ]
