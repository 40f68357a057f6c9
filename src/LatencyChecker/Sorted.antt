-- ===== src/LatencyChecker/Sorted.antt =====
-- What the statistics of the latencies say of them.
use order_book_sketch.Common.{
  ℕ, zero, suc, Bool, true, List, [], ◌∷◌, ◌++◌, Option, none, some, ltb, leb, ◌==◌, ◌+◌, ◌-◌, ◌*◌,
  ◌≤◌, ◌<◌, length, get_elem?, if◌then◌else◌, ◌≡◌, refl, arith, sym, ◌∙◌, ap, subst, All,
  append-append, append-nil, All-snoc, ◌⊎◌, inl, inr, Bool-cases,
}
use order_book_sketch.LatencyChecker.{
  Latency, new_latency, record_latency, sort_in, sort, get_percentile,
}

-- how many latencies pass a test
abbrev pub count : (ℕ → Bool) → List ℕ → ℕ
count p [] = 0
count p (x ∷ xs) = (if p x then 1 else 0) + count p xs

abbrev pub IsSorted : List ℕ → Type 0
IsSorted [] = Unit
IsSorted (x ∷ xs) = All (λ y. x ≤ y) xs × IsSorted xs

abbrev pub record_all : List ℕ → Latency → Latency
record_all [] l = l
record_all (t ∷ ts) l = record_all ts (record_latency t l)

-- The two bounds that hold for the latencies recorded so far.
abbrev pub IsBounded : Latency → Type 0
IsBounded l = All (λ x. (l.min_latency ≤ x) × (x ≤ l.max_latency)) l.latencies

All-weaken :
    (a b c d : ℕ) (xs : List ℕ)
    → c ≤ a
    → b ≤ d
    → All (λ x. (a ≤ x) × (x ≤ b)) xs
    → All (λ x. (c ≤ x) × (x ≤ d)) xs
All-weaken a b c d [] l r h = tt
All-weaken a b c d (x ∷ xs) l r h = (omega (arith, h.0), All-weaken a b c d xs l r h.1)

record_latency-IsBounded : (t : ℕ) (l : Latency) → IsBounded l → IsBounded (record_latency t l)
unfolding record_latency
record_latency-IsBounded t l h =
    let lo = if ltb t l.min_latency then t else l.min_latency in
    let hi = if ltb l.max_latency t then t else l.max_latency in
    let low : (lo ≤ l.min_latency) × (lo ≤ t) = ground arith in
    let high : (l.max_latency ≤ hi) × (t ≤ hi) = ground arith in
    All-snoc (λ x. (lo ≤ x) × (x ≤ hi)) l.latencies t
      (All-weaken l.min_latency l.max_latency lo hi l.latencies low.0 high.0 h) (low.1, high.1)

IsBounded-record_all : (ts : List ℕ) (l : Latency) → IsBounded l → IsBounded (record_all ts l)
IsBounded-record_all [] l h = h
IsBounded-record_all (t ∷ ts) l h =
    IsBounded-record_all ts (record_latency t l) (record_latency-IsBounded t l h)

All-sort_in : (P : ℕ → Type 0) (x : ℕ) (xs : List ℕ) → P x → All P xs → All P (sort_in x xs)
All-sort_in P x [] p h = (p, tt)
All-sort_in P x (y ∷ ys) p h = elim (Bool-cases (leb x y)) [
  | inl e ↦ rw e (p, h)
  | inr e ↦ rw e (h.0, All-sort_in P x ys p h.1)
]

All-above : (x y : ℕ) (xs : List ℕ) → x ≤ y → All (λ z. y ≤ z) xs → All (λ z. x ≤ z) xs
All-above x y [] le h = tt
All-above x y (z ∷ zs) le h = (omega (arith, h.0), All-above x y zs le h.1)

sort_in-IsSorted : (x : ℕ) (xs : List ℕ) → IsSorted xs → IsSorted (sort_in x xs)
sort_in-IsSorted x [] h = (tt, tt)
sort_in-IsSorted x (y ∷ ys) h = elim (Bool-cases (leb x y)) [
  | inl e ↦ let le : x ≤ y = ground (arith, e) in rw e ((le, All-above x y ys le h.0), h)
  | inr e ↦
      let le : y ≤ x = ground (arith, e) in
      rw e (All-sort_in (λ z. y ≤ z) x ys le h.0, sort_in-IsSorted x ys h.1)
]

pub sort-IsSorted : (xs : List ℕ) → IsSorted (sort xs)
unfolding sort
sort-IsSorted [] = tt
sort-IsSorted (x ∷ xs) = sort_in-IsSorted x (sort xs) (sort-IsSorted xs)

count-sort_in : (p : ℕ → Bool) (x : ℕ) (xs : List ℕ) → count p (sort_in x xs) ≡ count p (x ∷ xs)
count-sort_in p x [] = refl
count-sort_in p x (y ∷ ys) = elim (Bool-cases (leb x y)) [
  | inl e ↦ rw e refl
  | inr e ↦ rw e (omega (arith, count-sort_in p x ys))
]

count-sort : (p : ℕ → Bool) (xs : List ℕ) → count p (sort xs) ≡ count p xs
unfolding sort
count-sort p [] = refl
count-sort p (x ∷ xs) = omega (arith, count-sort_in p x (sort xs), count-sort p xs)

length-sort_in : (x : ℕ) (xs : List ℕ) → length (sort_in x xs) ≡ suc (length xs)
length-sort_in x [] = refl
length-sort_in x (y ∷ ys) = elim (Bool-cases (leb x y)) [
  | inl e ↦ rw e refl
  | inr e ↦ rw e (ap suc (length-sort_in x ys))
]

pub length-sort : (xs : List ℕ) → length (sort xs) ≡ length xs
unfolding sort
length-sort [] = refl
length-sort (x ∷ xs) = length-sort_in x (sort xs) ∙ ap suc (length-sort xs)

-- `v` is the latency with as many before it as the index says.
abbrev pub IsNth : ℕ → ℕ → List ℕ → Type 0
IsNth i v xs = (count (λ x. ltb x v) xs ≤ i) × (i < count (λ x. leb x v) xs)

none_below : (v : ℕ) (xs : List ℕ) → All (λ y. v ≤ y) xs → count (λ x. ltb x v) xs ≡ 0
none_below v [] h = refl
none_below v (x ∷ xs) h = let rest = none_below v xs h.1 in ground (arith, h.0, rest)

get_elem?-IsNth :
    (i : ℕ) (xs : List ℕ)
    → IsSorted xs
    → i < length xs
    → (v : ℕ) × (get_elem? xs i ≡ some v) × IsNth i v xs × ((b : ℕ) → All (λ y. b ≤ y) xs → b ≤ v)
get_elem?-IsNth i [] h lt = absurd (omega arith)
get_elem?-IsNth zero (x ∷ xs) h lt =
    let none_less = none_below x xs h.0 in
    (x, refl, (ground (arith, none_less), ground arith), λ b all. all.0)
get_elem?-IsNth (suc i) (x ∷ xs) h lt =
    let (v, there, nth, least) = get_elem?-IsNth i xs h.1 (omega arith) in
    let above : x ≤ v = least x h.0 in
    (v, there, (ground (arith, nth), ground (arith, nth, above)), λ b all. least b all.1)

get_elem?_behind : (i : ℕ) (xs : List ℕ) → length xs ≤ i → get_elem? xs i ≡ none
get_elem?_behind i [] h = refl
get_elem?_behind zero (x ∷ xs) h = absurd (omega arith)
get_elem?_behind (suc i) (x ∷ xs) h = get_elem?_behind i xs (omega arith)

-- `k` is the ceiling of `per` tenths of a percent of `n`.
abbrev pub IsCeiling : ℕ → ℕ → ℕ → Type 0
IsCeiling per n k = (per * n ≤ 1000 * k) × (1000 * k < per * n + 1000)

-- `getPercentile` reads behind the end, where the percentage of the number of latencies is above that
-- number less one, or it gives a latency: what is at most as large is more than the percentage, and what
-- is less is less than one above it.
abbrev pub IsPercentile : ℕ → List ℕ → Option ℕ → Type 0
IsPercentile per xs r =
    ((1000 * (length xs - 1) < per * length xs) × (r ≡ none))
    ⊎ ((per * length xs ≤ 1000 * (length xs - 1))
        × ((v : ℕ) × (r ≡ some v)
            × (per * length xs < 1000 * count (λ x. leb x v) xs)
            × (1000 * count (λ x. ltb x v) xs < per * length xs + 1000)))

IsPercentile-get_elem? :
    (per k : ℕ) (xs : List ℕ)
    → 0 < length xs
    → IsCeiling per (length xs) k
    → IsPercentile per xs (get_elem? (sort xs) k)
IsPercentile-get_elem? per k xs some_latency (low, high) = elim (Bool-cases (ltb k (length xs))) [
  | inl t ↦
      let lt : k < length xs = ground (arith, t) in
      let (v, there, nth, _) =
        get_elem?-IsNth k (sort xs) (sort-IsSorted xs) (omega (arith, length-sort xs, lt)) in
      let (below, above) : IsNth k v xs =
        rw⁻¹ (count-sort (λ x. ltb x v) xs, count-sort (λ x. leb x v) xs) nth in
      inr (omega arith, (v, there, omega arith, omega arith))
  | inr t ↦
      let beyond : length xs ≤ k = ground (arith, t) in
      inl (omega arith, get_elem?_behind k (sort xs) (omega (arith, length-sort xs, beyond)))
]

-- With latencies, and a floating-point computation that gives the ceiling of the percentage of their
-- number, `getPercentile` reads behind the end exactly where that percentage is above the number less
-- one, and elsewhere gives a latency: more latencies than the percentage are at most as large, and less
-- than one above the percentage are less. It keeps the latencies, in ascending order.
pub get_percentile-IsPercentile :
    (ceil_of : ℕ → ℕ → ℕ) (per : ℕ) (l : Latency)
    → 0 < length l.latencies
    → IsCeiling per (length l.latencies) (ceil_of per (length l.latencies))
    → IsPercentile per l.latencies (get_percentile ceil_of per l).1
      × IsSorted (get_percentile ceil_of per l).0.latencies
      × ((p : ℕ → Bool) → count p (get_percentile ceil_of per l).0.latencies ≡ count p l.latencies)
unfolding get_percentile
get_percentile-IsPercentile ceil_of per l lt ceiling =
    let some_latency : ltb 0 (length l.latencies) ≡ true = ground (arith, lt) in
    rw some_latency (
      IsPercentile-get_elem? per (ceil_of per (length l.latencies)) l.latencies lt ceiling,
      sort-IsSorted l.latencies,
      λ p. count-sort p l.latencies,
    )

latencies-record_all : (ts : List ℕ) (l : Latency) → (record_all ts l).latencies ≡ l.latencies ++ ts
unfolding record_latency
latencies-record_all [] l = sym (append-nil l.latencies)
latencies-record_all (t ∷ ts) l =
    latencies-record_all ts (record_latency t l) ∙ append-append l.latencies (t ∷ []) ts

-- The bounds are latencies of the list or what they were before.
abbrev pub IsAttained : List ℕ → Latency → Latency → Type 0
IsAttained ts l l' =
    ((l'.min_latency ≡ l.min_latency) ⊎ (0 < count (λ x. x == l'.min_latency) ts))
    × ((l'.max_latency ≡ l.max_latency) ⊎ (0 < count (λ x. x == l'.max_latency) ts))

IsMinOf-record_latency :
    (t : ℕ) (l : Latency) (ts : List ℕ) (m : ℕ)
    → (m ≡ (record_latency t l).min_latency) ⊎ (0 < count (λ x. x == m) ts)
    → (m ≡ l.min_latency) ⊎ (0 < count (λ x. x == m) (t ∷ ts))
unfolding record_latency
IsMinOf-record_latency t l ts m h = ground (arith, h)

IsMaxOf-record_latency :
    (t : ℕ) (l : Latency) (ts : List ℕ) (m : ℕ)
    → (m ≡ (record_latency t l).max_latency) ⊎ (0 < count (λ x. x == m) ts)
    → (m ≡ l.max_latency) ⊎ (0 < count (λ x. x == m) (t ∷ ts))
unfolding record_latency
IsMaxOf-record_latency t l ts m h = ground (arith, h)

IsAttained-record_all : (ts : List ℕ) (l : Latency) → IsAttained ts l (record_all ts l)
IsAttained-record_all [] l = (inl refl, inl refl)
IsAttained-record_all (t ∷ ts) l =
    let l' = record_all ts (record_latency t l) in
    let (low, high) = IsAttained-record_all ts (record_latency t l) in
    (
      IsMinOf-record_latency t l ts l'.min_latency low,
      IsMaxOf-record_latency t l ts l'.max_latency high,
    )

-- After some latencies, from the start: they are all kept in their order, the minimum is at most each of
-- them and is one of them or 2 ^ 31 - 1, and the maximum is at least each of them and is one of them or 0.
pub record_all-IsBounded :
    (ts : List ℕ)
    → let l = record_all ts new_latency in
      (l.latencies ≡ ts)
      × All (λ x. (l.min_latency ≤ x) × (x ≤ l.max_latency)) ts
      × IsAttained ts new_latency l
record_all-IsBounded ts =
    let l = record_all ts new_latency in
    let kept : l.latencies ≡ ts = latencies-record_all ts new_latency in
    (
      kept,
      subst (All (λ x. (l.min_latency ≤ x) × (x ≤ l.max_latency))) kept
          (IsBounded-record_all ts new_latency tt),
      IsAttained-record_all ts new_latency,
    )
