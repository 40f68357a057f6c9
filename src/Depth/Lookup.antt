-- ===== src/Depth/Lookup.antt =====
-- The depth as a map from prices to quantities and counts: the search on a sorted side, seen from
-- the prices.
use order_book_sketch.Common.{
  ℕ, Bool, true, false, ℤ, pos, ◌+ℤ◌, ◌==ℤ◌, ◌<ℤ◌, List, [], ◌∷◌, Option, none, some, ◌≡◌, ◌≢◌,
  refl, sym, ◌∙◌, arith, if◌then◌else◌, modify_at, Bool-cases, inl, inr, ==ℤ→eq, ==ℤ_refl,
  eq_of_parts, neg_ℤ_parts,
}
use order_book_sketch.Depth.{search, found, vacant, before, rank}
use order_book_sketch.Depth.Level.{DepthLevel}
use order_book_sketch.Depth.Sorted.{IsSorted}
use order_book_sketch.Depth.Visits.{
  hit, gap, top, pass, visit, search_none, search_single, further_found, further_vacant,
  further_before,
}

-- what a level stands for: its quantity and its number of orders
abbrev pub entry : DepthLevel → ℤ × ℤ
entry l = (l.total_qty, l.orders_count)

-- the first visible level at a price
abbrev pub seen : ℤ → List DepthLevel → Option (ℤ × ℤ)
seen q [] = none
seen q (x ∷ xs) = if x.price ==ℤ q then some (entry x) else seen q xs

-- an order of `n` more at a price
abbrev pub grown : ℤ → Option (ℤ × ℤ) → Option (ℤ × ℤ)
grown n none = some (n, pos 1)
grown n (some (q, c)) = some (q +ℤ n, c +ℤ pos 1)

-- A change of a level that adds an order of `n` to it
abbrev pub Adds : ℤ → (DepthLevel → DepthLevel) → Type 0
Adds n f =
    (l : DepthLevel)
    → ((f l).price ≡ l.price) × (entry (f l) ≡ (l.total_qty +ℤ n, l.orders_count +ℤ pos 1))

rank-above : (b : Bool) (l p : ℤ) → rank b l <ℤ rank b p → (l ==ℤ p) ≡ false
rank-above true l p h = ground arith
rank-above false l p h = ground (arith, neg_ℤ_parts l, neg_ℤ_parts p)

pub rank-apart : (b : Bool) (l p : ℤ) → rank b p <ℤ rank b l → (l ==ℤ p) ≡ false
rank-apart true l p h = ground arith
rank-apart false l p h = ground (arith, neg_ℤ_parts l, neg_ℤ_parts p)

if_same :
    {A : Type 0} (t : Bool) (a b c : A)
    → (if t then a else c) ≡ (if t then a else if t then b else c)
if_same true a b c = refl
if_same false a b c = refl

-- The tests for two different prices commute.
pub if_swap :
    {A : Type 0} (p q x : ℤ) (a b c : A)
    → (x ==ℤ p) ≡ false
    → (if x ==ℤ q then b else if p ==ℤ q then a else c)
      ≡ (if p ==ℤ q then a else if x ==ℤ q then b else c)
if_swap p q x a b c h = elim (Bool-cases (p ==ℤ q)) [
  | inr n ↦ rw n refl
  | inl e ↦
      let same : p ≡ q = ==ℤ→eq p q e in
      let apart : (x ==ℤ q) ≡ false = rw⁻¹ same h in rw (e, apart) refl
]

pub seen_found :
    (b : Bool) (p q n : ℤ) (i : ℕ) (f : DepthLevel → DepthLevel) (xs : List DepthLevel)
    → Adds n f
    → search b true p xs ≡ found i
    → seen q (modify_at i f xs) ≡ (if p ==ℤ q then grown n (seen p xs) else seen q xs)
seen_found b p q n i f [] adds e = let h = search_none b true p in absurd (cc)
seen_found b p q n i f (x ∷ []) adds e = let h = search_single b true p x in absurd (cc)
seen_found b p q n i f (x ∷ y ∷ r) adds e = elim (visit b p x y r) [
  | gap _ _ h ↦ absurd (cc)
  | top _ _ h ↦ absurd (cc)
  | hit same h ↦
      let k : i ≡ 0 = cc in
      let (kp, ke) = adds x in
      rw (k, kp, ke, same, ==ℤ_refl p)
        (if_same (p ==ℤ q) (some (x.total_qty +ℤ n, x.orders_count +ℤ pos 1)) (some (entry x))
          (seen q (y ∷ r)))
  | pass held w h ↦
      let g = further_found (search b true p (y ∷ r)) i (sym h ∙ e) in
      let rest = seen_found b p q n g.0 f (y ∷ r) adds g.2 in
      rw (g.1, rank-apart b x.price p w, rest)
        (if_swap p q x.price (grown n (seen p (y ∷ r))) (some (entry x)) (seen q (y ∷ r))
          (rank-apart b x.price p w))
]

pub seen_found_there :
    (b : Bool) (p : ℤ) (i : ℕ) (xs : List DepthLevel)
    → search b true p xs ≡ found i
    → (v : ℤ × ℤ) × (seen p xs ≡ some v)
seen_found_there b p i [] e = let h = search_none b true p in absurd (cc)
seen_found_there b p i (x ∷ []) e = let h = search_single b true p x in absurd (cc)
seen_found_there b p i (x ∷ y ∷ r) e = elim (visit b p x y r) [
  | gap _ _ h ↦ absurd (cc)
  | top _ _ h ↦ absurd (cc)
  | hit same h ↦ (entry x, rw (same, ==ℤ_refl p) refl)
  | pass held w h ↦
      let g = further_found (search b true p (y ∷ r)) i (sym h ∙ e) in
      let (v, there) = seen_found_there b p g.0 (y ∷ r) g.2 in
      (v, rw (rank-apart b x.price p w) there)
]

-- A change of a level that gives it a price and what it stands for
abbrev pub Sets : ℤ → ℤ × ℤ → (DepthLevel → DepthLevel) → Type 0
Sets p v f = (l : DepthLevel) → ((f l).price ≡ p) × (entry (f l) ≡ v)

pub held_ne : (x q : ℤ) → x ≡ pos 0 → q ≢ pos 0 → (x ==ℤ q) ≡ false
held_ne x q z ne = rw z (ground (arith, eq_of_parts q (pos 0), ne))

seen_all_vacant :
    (b : Bool) (q : ℤ) (x : DepthLevel) (xs : List DepthLevel)
    → q ≢ pos 0
    → x.price ≡ pos 0
    → IsSorted b (x ∷ xs)
    → seen q (x ∷ xs) ≡ none
seen_all_vacant b q x [] ne z s = rw (held_ne x.price q z ne) refl
seen_all_vacant b q x (y ∷ xs) ne z s = elim (Bool-cases (y.price ==ℤ pos 0)) [
  | inl e ↦ rw (held_ne x.price q z ne) (seen_all_vacant b q y xs ne (==ℤ→eq _ _ e) s.1)
  | inr n ↦ let held : y.price ≢ pos 0 = λ e. ground (arith, n, e) in absurd ((s.0 held).0 z)
]

seen_all_below :
    (b : Bool) (p : ℤ) (x : DepthLevel) (xs : List DepthLevel)
    → p ≢ pos 0
    → rank b x.price <ℤ rank b p
    → IsSorted b (x ∷ xs)
    → seen p (x ∷ xs) ≡ none
seen_all_below b p x [] ne w s = rw (rank-above b x.price p w) refl
seen_all_below b p x (y ∷ xs) ne w s = elim (Bool-cases (y.price ==ℤ pos 0)) [
  | inl e ↦ rw (rank-above b x.price p w) (seen_all_vacant b p y xs ne (==ℤ→eq _ _ e) s.1)
  | inr n ↦
      let held : y.price ≢ pos 0 = λ e. ground (arith, n, e) in
      let lower : rank b y.price <ℤ rank b x.price = (s.0 held).1 in
      rw (rank-above b x.price p w) (seen_all_below b p y xs ne (omega arith) s.1)
]

pub seen_vacant :
    (b : Bool) (p q : ℤ) (v : ℤ × ℤ) (i : ℕ) (f : DepthLevel → DepthLevel) (xs : List DepthLevel)
    → Sets p v f
    → q ≢ pos 0
    → search b true p xs ≡ vacant i
    → seen q (modify_at i f xs) ≡ (if p ==ℤ q then some v else seen q xs)
seen_vacant b p q v i f [] sets nq e = let h = search_none b true p in absurd (cc)
seen_vacant b p q v i f (x ∷ []) sets nq e = let h = search_single b true p x in absurd (cc)
seen_vacant b p q v i f (x ∷ y ∷ r) sets nq e = elim (visit b p x y r) [
  | hit _ h ↦ absurd (cc)
  | top _ _ h ↦ absurd (cc)
  | gap z _ h ↦
      let k : i ≡ 0 = cc in let (kp, ke) = sets x in rw (k, kp, ke, held_ne x.price q z nq) refl
  | pass held w h ↦
      let g = further_vacant (search b true p (y ∷ r)) i (sym h ∙ e) in
      let rest = seen_vacant b p q v g.0 f (y ∷ r) sets nq g.2 in
      rw (g.1, rest)
        (if_swap p q x.price (some v) (some (entry x)) (seen q (y ∷ r)) (rank-apart b x.price p w))
]

pub unseen_vacant :
    (b : Bool) (p : ℤ) (i : ℕ) (xs : List DepthLevel)
    → p ≢ pos 0
    → IsSorted b xs
    → search b true p xs ≡ vacant i
    → seen p xs ≡ none
unseen_vacant b p i [] ne s e = refl
unseen_vacant b p i (x ∷ []) ne s e = let h = search_single b true p x in absurd (cc)
unseen_vacant b p i (x ∷ y ∷ r) ne s e = elim (visit b p x y r) [
  | hit _ h ↦ absurd (cc)
  | top _ _ h ↦ absurd (cc)
  | gap z _ h ↦ seen_all_vacant b p x (y ∷ r) ne z s
  | pass held w h ↦
      let g = further_vacant (search b true p (y ∷ r)) i (sym h ∙ e) in
      rw (rank-apart b x.price p w) (unseen_vacant b p g.0 (y ∷ r) ne s.1 g.2)
]

pub unseen_before :
    (b : Bool) (p : ℤ) (i : ℕ) (xs : List DepthLevel)
    → p ≢ pos 0
    → IsSorted b xs
    → search b true p xs ≡ before i
    → seen p xs ≡ none
unseen_before b p i [] ne s e = refl
unseen_before b p i (x ∷ []) ne s e = let h = search_single b true p x in absurd (cc)
unseen_before b p i (x ∷ y ∷ r) ne s e = elim (visit b p x y r) [
  | hit _ h ↦ absurd (cc)
  | gap _ _ h ↦ absurd (cc)
  | top held w h ↦ seen_all_below b p x (y ∷ r) ne w s
  | pass held w h ↦
      let g = further_before (search b true p (y ∷ r)) i (sym h ∙ e) in
      rw (rank-apart b x.price p w) (unseen_before b p g.0 (y ∷ r) ne s.1 g.2)
]
