-- ===== src/HashMap/Slots.antt =====
-- Buckets as a list: the entry of a key, how many buckets are taken, and what a write to one does.
use order_book_sketch.Common.{
  ℕ, zero, suc, List, [], ◌∷◌, length, get_or, set, replicate, Option, none, some, ◌==◌, ◌+◌, ◌<◌,
  if◌then◌else◌, ◌≡◌, ◌≢◌, refl, arith, Bool-cases, inl, inr, ◌∙◌, ==→eq,
}

module _ {V : Type 0} where
  -- the value of the first entry with the key
  unfoldable pub lookup : ℕ → List (ℕ × V) → Option V
  lookup q [] = none
  lookup q ((k, v) ∷ es) = if k == q then some v else lookup q es

  unfoldable pub occupied : ℕ → List (ℕ × V) → ℕ
  occupied e [] = 0
  occupied e ((k, v) ∷ es) = (if k == e then 0 else 1) + occupied e es

  -- no two entries have the same key, free buckets left aside
  abbrev pub IsUnique : ℕ → List (ℕ × V) → Type 0
  IsUnique e [] = Unit
  IsUnique e ((k, v) ∷ es) = (k ≢ e → lookup k es ≡ none) × IsUnique e es

  -- A free bucket gets an entry with a new key.
  pub lookup-fill :
      (e q k : ℕ) (v : V) (es : List (ℕ × V)) (p : ℕ) (d : ℕ × V)
      → q ≢ e
      → p < length es
      → (get_or es p d).0 ≡ e
      → lookup k es ≡ none
      → lookup q (set es p (k, v)) ≡ (if k == q then some v else lookup q es)
  unfolding lookup
  lookup-fill e q k v [] p d ne h z a = absurd (omega arith)
  lookup-fill e q k v ((j, w) ∷ es) zero d ne h z a = ground (arith, z)
  lookup-fill e q k v ((j, w) ∷ es) (suc p) d ne h z a =
      ground (arith, lookup-fill e q k v es p d ne (omega (arith, h)) z)

  pub fill-IsUnique :
      (e k : ℕ) (v : V) (es : List (ℕ × V)) (p : ℕ) (d : ℕ × V)
      → k ≢ e
      → p < length es
      → (get_or es p d).0 ≡ e
      → lookup k es ≡ none
      → IsUnique e es
      → IsUnique e (set es p (k, v))
  unfolding lookup
  fill-IsUnique e k v [] p d ne h z a u = absurd (omega arith)
  fill-IsUnique e k v ((j, w) ∷ es) zero d ne h z a u = (λ _. ground (arith, z), u.1)
  fill-IsUnique e k v ((j, w) ∷ es) (suc p) d ne h z a u = (
    λ n. lookup-fill e j k v es p d n (omega (arith, h)) z (ground arith) ∙ ground (arith, u.0 n),
    fill-IsUnique e k v es p d ne (omega (arith, h)) z (ground arith) u.1,
  )

  pub occupied-fill :
      (e k : ℕ) (v : V) (es : List (ℕ × V)) (p : ℕ) (d : ℕ × V)
      → k ≢ e
      → p < length es
      → (get_or es p d).0 ≡ e
      → occupied e (set es p (k, v)) ≡ suc (occupied e es)
  unfolding occupied
  occupied-fill e k v [] p d ne h z = absurd (omega arith)
  occupied-fill e k v ((j, w) ∷ es) zero d ne h z = ground (arith, z)
  occupied-fill e k v ((j, w) ∷ es) (suc p) d ne h z =
      ground (arith, occupied-fill e k v es p d ne (omega (arith, h)) z)

  pub lookup-get_or :
      (e : ℕ) (es : List (ℕ × V)) (p : ℕ) (d : ℕ × V)
      → p < length es
      → (get_or es p d).0 ≢ e
      → IsUnique e es
      → lookup (get_or es p d).0 es ≡ some (get_or es p d).1
  unfolding lookup
  lookup-get_or e [] p d h n u = absurd (omega arith)
  lookup-get_or e ((j, w) ∷ es) zero d h n u = ground arith
  lookup-get_or e ((j, w) ∷ es) (suc p) d h n u =
      let r = lookup-get_or e es p d (omega (arith, h)) n u.1 in
      elim (Bool-cases (j == (get_or es p d).0)) [
        | inl y ↦ cc (r, u.0 (rw (==→eq _ _ y) n), ==→eq _ _ y)
        | inr x ↦ rw x r
      ]

  -- A key that is found stands somewhere.
  pub lookup-some :
      (q : ℕ) (es : List (ℕ × V)) (d : ℕ × V) (v : V)
      → lookup q es ≡ some v
      → (p : ℕ) × (p < length es) × ((get_or es p d).0 ≡ q)
  unfolding lookup
  lookup-some q [] d v h = cc
  lookup-some q ((j, w) ∷ es) d v h = elim (Bool-cases (j == q)) [
    | inl y ↦ (0, omega arith, ==→eq j q y)
    | inr x ↦
        let (p, lt, e) = lookup-some q es d v (ground (arith, h, x)) in
        (suc p, omega (arith, lt), e)
  ]

  -- An entry leaves its bucket.
  pub lookup-blank :
      (e q : ℕ) (w : V) (es : List (ℕ × V)) (p : ℕ) (d : ℕ × V)
      → q ≢ e
      → p < length es
      → (get_or es p d).0 ≢ e
      → IsUnique e es
      → lookup q (set es p (e, w)) ≡ (if (get_or es p d).0 == q then none else lookup q es)
  unfolding lookup
  lookup-blank e q w [] p d ne h n u = absurd (omega arith)
  lookup-blank e q w ((j, x) ∷ es) zero d ne h n u = ground (arith, u.0 n)
  lookup-blank e q w ((j, x) ∷ es) (suc p) d ne h n u = ground (
    arith,
    lookup-blank e q w es p d ne (omega (arith, h)) n u.1,
    lookup-get_or e es p d (omega (arith, h)) n u.1,
    u.0,
  )

  pub blank-IsUnique :
      (e : ℕ) (w : V) (es : List (ℕ × V)) (p : ℕ) (d : ℕ × V)
      → p < length es
      → (get_or es p d).0 ≢ e
      → IsUnique e es
      → IsUnique e (set es p (e, w))
  unfolding lookup
  blank-IsUnique e w [] p d h n u = absurd (omega arith)
  blank-IsUnique e w ((j, x) ∷ es) zero d h n u = (λ z. absurd (z refl), u.1)
  blank-IsUnique e w ((j, x) ∷ es) (suc p) d h n u = (
    λ z. lookup-blank e j w es p d z (omega (arith, h)) n u.1 ∙ ground (arith, u.0 z),
    blank-IsUnique e w es p d (omega (arith, h)) n u.1,
  )

  pub occupied-blank :
      (e : ℕ) (w : V) (es : List (ℕ × V)) (p : ℕ) (d : ℕ × V)
      → p < length es
      → (get_or es p d).0 ≢ e
      → suc (occupied e (set es p (e, w))) ≡ occupied e es
  unfolding occupied
  occupied-blank e w [] p d h n = absurd (omega arith)
  occupied-blank e w ((j, x) ∷ es) zero d h n = ground arith
  occupied-blank e w ((j, x) ∷ es) (suc p) d h n =
      ground (arith, occupied-blank e w es p d (omega (arith, h)) n)

  -- With fewer entries than buckets some bucket is free.
  pub free_bucket :
      (e : ℕ) (es : List (ℕ × V)) (d : ℕ × V)
      → occupied e es < length es
      → (p : ℕ) × (p < length es) × ((get_or es p d).0 ≡ e)
  unfolding occupied
  free_bucket e [] d h = absurd (omega arith)
  free_bucket e ((j, w) ∷ es) d h = elim (Bool-cases (j == e)) [
    | inl y ↦ (0, omega arith, ==→eq j e y)
    | inr x ↦
        let (p, lt, f) = free_bucket e es d (ground (arith, h, x)) in (suc p, omega (arith, lt), f)
  ]

  -- a table of free buckets
  pub occupied-replicate : (e n : ℕ) (v : V) → occupied e (replicate n (e, v)) ≡ 0
  unfolding occupied
  occupied-replicate e zero v = refl
  occupied-replicate e (suc n) v = ground (arith, occupied-replicate e n v)

  pub lookup-replicate : (e q n : ℕ) (v : V) → q ≢ e → lookup q (replicate n (e, v)) ≡ none
  unfolding lookup
  lookup-replicate e q zero v h = refl
  lookup-replicate e q (suc n) v h = ground (arith, lookup-replicate e q n v h)

  pub replicate-IsUnique : (e n : ℕ) (v : V) → IsUnique e (replicate n (e, v))
  replicate-IsUnique e zero v = tt
  replicate-IsUnique e (suc n) v = (λ z. absurd (z refl), replicate-IsUnique e n v)

  pub get_or-replicate :
      (e n i : ℕ) (v : V) → (get_or {A = ℕ × V} (replicate n (e, v)) i (e, v)).0 ≡ e
  get_or-replicate e zero i v = refl
  get_or-replicate e (suc n) zero v = refl
  get_or-replicate e (suc n) (suc i) v = get_or-replicate e n i v
