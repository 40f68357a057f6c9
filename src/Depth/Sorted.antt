-- ===== src/Depth/Sorted.antt =====
-- The visible levels of a side in the order of their prices, the vacant levels last.
use order_book_sketch.Common.{
  ℕ, zero, suc, Bool, true, false, ℤ, pos, ◌<ℤ◌, List, [], ◌∷◌, ◌≡◌, ◌≢◌, refl, arith, sym, ◌∙◌,
  ◌+ℤ◌, Option-cases, modify_at, Bool-cases, inl, inr,
}
use order_book_sketch.Depth.Visits.{
  hit, gap, top, pass, visit, further_before, further_vacant, search_single,
}
use order_book_sketch.Depth.Find.{
  Search-cases, find_level_found, find_level_vacant, find_level_before, find_level_end,
  find_excess_levels, add_at-none, add_at_excess, add_at_visible,
}
use order_book_sketch.Depth.{
  put, find_level, insert_level_before, add_at, update_level, level_at, Place, visible, in_excess,
  add_order, Depth, side_of, search, vacant, before, moved, shift_down, make_room, rank, DepthSide,
}
use order_book_sketch.Depth.Level.{DepthLevel, init, add_qty_order}

-- A level at `q` may follow one at `p`.
abbrev pub Follows : Bool → ℤ → ℤ → Type 0
Follows b p q = q ≢ pos 0 → (p ≢ pos 0) × (rank b q <ℤ rank b p)

abbrev pub Starts : Bool → ℤ → List DepthLevel → Type 0
Starts b p [] = Unit
Starts b p (x ∷ xs) = Follows b p x.price

abbrev pub IsSorted : Bool → List DepthLevel → Type 0
IsSorted b [] = Unit
IsSorted b (x ∷ xs) = Starts b x.price xs × IsSorted b xs

pub moved_price : (c : ℤ) (l from : DepthLevel) → (moved c l from).price ≡ from.price
moved_price c l from = ground arith

Starts-shift_down :
    (b : Bool) (p c : ℤ) (from : DepthLevel) (xs : List DepthLevel)
    → Follows b p from.price
    → Starts b p (shift_down c from xs)
unfolding shift_down
Starts-shift_down b p c from [] f = tt
Starts-shift_down b p c from (x ∷ xs) f = rw (moved_price c x from) f

IsSorted-shift_down :
    (b : Bool) (c : ℤ) (from : DepthLevel) (xs : List DepthLevel)
    → Starts b from.price xs
    → IsSorted b xs
    → IsSorted b (shift_down c from xs)
unfolding shift_down
IsSorted-shift_down b c from [] f s = tt
IsSorted-shift_down b c from (x ∷ xs) f s = (
  rw (moved_price c x from) (Starts-shift_down b from.price c x xs f),
  IsSorted-shift_down b c x xs s.0 s.1,
)

Starts-make_room :
    (b : Bool) (z c p : ℤ) (i : ℕ) (xs : List DepthLevel)
    → Follows b z p
    → Starts b z xs
    → Starts b z (make_room c p i xs)
unfolding make_room
Starts-make_room b z c p i [] f s = tt
Starts-make_room b z c p zero (x ∷ xs) f s = f
Starts-make_room b z c p (suc i) (x ∷ xs) f s = s

make_room-IsSorted :
    (b : Bool) (c p : ℤ) (i : ℕ) (xs : List DepthLevel)
    → p ≢ pos 0
    → search b true p xs ≡ before i
    → IsSorted b xs
    → IsSorted b (make_room c p i xs)
unfolding make_room
make_room-IsSorted b c p i [] ne e s = tt
make_room-IsSorted b c p i (x ∷ []) ne e s = let h = search_single b true p x in absurd (cc)
make_room-IsSorted b c p i (x ∷ y ∷ r) ne e s = elim (visit b p x y r) [
  | hit _ h ↦ absurd (cc)
  | gap _ _ h ↦ absurd (cc)
  | top held w h ↦
      let z : i ≡ 0 = cc in
      rw z (
        Starts-shift_down b p c x (y ∷ r) (λ _. (ne, w)),
        IsSorted-shift_down b c x (y ∷ r) s.0 s.1,
      )
  | pass held w h ↦
      let f = further_before (search b true p (y ∷ r)) i (sym h ∙ e) in
      let rest = make_room-IsSorted b c p f.0 (y ∷ r) ne f.2 s.1 in
      rw f.1 (Starts-make_room b x.price c p f.0 (y ∷ r) (λ _. (held, w)) s.0, rest)
]

-- A vacant level that the search stops at takes the price.
Starts-init :
    (b : Bool) (z p : ℤ) (i : ℕ) (xs : List DepthLevel)
    → Follows b z p
    → Starts b z xs
    → Starts b z (modify_at i (init p false) xs)
Starts-init b z p i [] f s = tt
Starts-init b z p zero (x ∷ xs) f s = f
Starts-init b z p (suc i) (x ∷ xs) f s = s

Starts-vacant :
    (b : Bool) (p q : ℤ) (xs : List DepthLevel) → p ≡ pos 0 → Starts b p xs → Starts b q xs
Starts-vacant b p q [] z s = tt
Starts-vacant b p q (x ∷ xs) z s = λ h. absurd ((s h).0 z)

init-IsSorted :
    (b : Bool) (p : ℤ) (i : ℕ) (xs : List DepthLevel)
    → p ≢ pos 0
    → search b true p xs ≡ vacant i
    → IsSorted b xs
    → IsSorted b (modify_at i (init p false) xs)
init-IsSorted b p i [] ne e s = tt
init-IsSorted b p i (x ∷ []) ne e s = let h = search_single b true p x in absurd (cc)
init-IsSorted b p i (x ∷ y ∷ r) ne e s = elim (visit b p x y r) [
  | hit _ h ↦ absurd (cc)
  | gap z _ h ↦ let k : i ≡ 0 = cc in rw k (Starts-vacant b x.price p (y ∷ r) z s.0, s.1)
  | top held w h ↦ absurd (cc)
  | pass held w h ↦
      let f = further_vacant (search b true p (y ∷ r)) i (sym h ∙ e) in
      let rest = init-IsSorted b p f.0 (y ∷ r) ne f.2 s.1 in
      rw f.1 (Starts-init b x.price p f.0 (y ∷ r) (λ _. (held, w)) s.0, rest)
]

-- A change of a level that leaves its price
Starts-modify_at :
    (b : Bool) (z : ℤ) (i : ℕ) (f : DepthLevel → DepthLevel) (xs : List DepthLevel)
    → ((l : DepthLevel) → (f l).price ≡ l.price)
    → Starts b z xs
    → Starts b z (modify_at i f xs)
Starts-modify_at b z i f [] k s = tt
Starts-modify_at b z zero f (x ∷ xs) k s = rw (k x) s
Starts-modify_at b z (suc i) f (x ∷ xs) k s = s

pub modify_at-IsSorted :
    (b : Bool) (i : ℕ) (f : DepthLevel → DepthLevel) (xs : List DepthLevel)
    → ((l : DepthLevel) → (f l).price ≡ l.price)
    → IsSorted b xs
    → IsSorted b (modify_at i f xs)
modify_at-IsSorted b i f [] k s = tt
modify_at-IsSorted b zero f (x ∷ xs) k s = rw (k x) s
modify_at-IsSorted b (suc i) f (x ∷ xs) k s =
    (Starts-modify_at b x.price i f xs k s.0, modify_at-IsSorted b i f xs k s.1)

find_level-IsSorted :
    (b : Bool) (p c : ℤ) (s : DepthSide)
    → p ≢ pos 0
    → IsSorted b s.levels
    → IsSorted b (find_level b true p c s).0.levels
unfolding insert_level_before
find_level-IsSorted b p c s ne h = elim (Search-cases (search b true p s.levels)) [
  | inl (i, e) ↦ rw (find_level_found b p s true c i e) h
  | inr (inl (i, e)) ↦ rw (find_level_vacant b p s true c i e) (init-IsSorted b p i s.levels ne e h)
  | inr (inr (inl (i, e))) ↦
      rw (find_level_before b p s true c i e, insert_level_before)
        (make_room-IsSorted b (c +ℤ pos 1) p i s.levels ne e h)
  | inr (inr (inr e)) ↦ rw (find_level_end b p s true c e, find_excess_levels b p s true) h
]

update_level-IsSorted :
    (b : Bool) (at : Place) (f : DepthLevel → DepthLevel) (s : DepthSide)
    → ((l : DepthLevel) → (f l).price ≡ l.price)
    → IsSorted b s.levels
    → IsSorted b (update_level at f s).levels
update_level-IsSorted b (visible i) f s k h = modify_at-IsSorted b i f s.levels k h
update_level-IsSorted b (in_excess j) f s k h = h

add_at-IsSorted :
    (b : Bool) (q c : ℤ) (s : DepthSide) (at : Place)
    → IsSorted b s.levels
    → IsSorted b (add_at q (s, c, at)).0.levels
add_at-IsSorted b q c s at h = elim (Option-cases (level_at at s)) [
  | inl e ↦ rw (add_at-none q c s at e) h
  | inr (l, e) ↦ elim (Bool-cases l.is_excess) [
    | inl t ↦
        rw (add_at_excess q c s at l e t)
          (update_level-IsSorted b at (add_qty_order q) s (λ _. refl) h)
    | inr n ↦ rw (add_at_visible q c s at l e n) (update_level-IsSorted b at _ s (λ _. refl) h)
  ]
]

pub side_of-put : (b : Bool) (s : DepthSide) (c : ℤ) (d : Depth) → side_of b (put b s c d) ≡ s
side_of-put true s c d = refl
side_of-put false s c d = refl

-- An order added at a price other than the invalid one leaves the visible levels of its side in
-- order: each price held is better than the next, and the vacant levels come last.
pub add_order-IsSorted :
    (p q : ℤ) (b : Bool) (d : Depth)
    → p ≢ pos 0
    → IsSorted b (side_of b d).levels
    → IsSorted b (side_of b (add_order p q b d)).levels
unfolding add_order
add_order-IsSorted p q b d ne h =
    let r = find_level b true p d.last_changed (side_of b d) in
    let found = find_level-IsSorted b p d.last_changed (side_of b d) ne h in
    rw (side_of-put b (add_at q r).0 (add_at q r).1 d) (add_at-IsSorted b q r.1 r.0 r.2 found)
