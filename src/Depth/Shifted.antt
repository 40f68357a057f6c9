-- ===== src/Depth/Shifted.antt =====
-- What `insert_level_before` leaves visible, seen from the prices: all levels but the last one, and the
-- new one.
use order_book_sketch.Common.{
  ℕ, Bool, true, false, ℤ, pos, ◌==ℤ◌, List, [], ◌∷◌, Option, none, some, ◌≡◌, refl, sym, ◌∙◌,
  if◌then◌else◌, modify_at, last?, Bool-cases, inl, inr,
}
use order_book_sketch.Depth.{search, before, at_end, moved, shift_down, make_room}
use order_book_sketch.Depth.Level.{DepthLevel, init}
use order_book_sketch.Depth.Sorted.{moved_price}
use order_book_sketch.Depth.Visits.{
  visit, hit, gap, top, pass, search_none, search_single, further_before, further_end,
}
use order_book_sketch.Depth.Lookup.{entry, seen, Sets, rank-apart, if_swap}

abbrev pub but_last : List DepthLevel → List DepthLevel
but_last [] = []
but_last (x ∷ []) = []
but_last (x ∷ y ∷ r) = x ∷ but_last (y ∷ r)

-- the first that is there
abbrev pub or_else : Option (ℤ × ℤ) → Option (ℤ × ℤ) → Option (ℤ × ℤ)
or_else none d = d
or_else (some v) d = some v

entry-moved : (c : ℤ) (l from : DepthLevel) → entry (moved c l from) ≡ entry from
entry-moved c l from = elim (Bool-cases (from.price ==ℤ pos 0)) [
  | inl e ↦ rw e refl
  | inr n ↦ rw n refl
]

seen-shift_down :
    (c q : ℤ) (x : DepthLevel) (xs : List DepthLevel)
    → seen q (shift_down c x xs) ≡ seen q (but_last (x ∷ xs))
unfolding shift_down
seen-shift_down c q x [] = refl
seen-shift_down c q x (y ∷ xs) =
    rw (moved_price c y x, entry-moved c y x, seen-shift_down c q y xs) refl

pub seen-make_room :
    (b : Bool) (c p q : ℤ) (v : ℤ × ℤ) (i : ℕ) (f : DepthLevel → DepthLevel) (xs : List DepthLevel)
    → Sets p v (λ l. f (init p false l))
    → search b true p xs ≡ before i
    → seen q (modify_at i f (make_room c p i xs))
      ≡ (if p ==ℤ q then some v else seen q (but_last xs))
unfolding make_room
seen-make_room b c p q v i f [] sets e = let h = search_none b true p in absurd (cc)
seen-make_room b c p q v i f (x ∷ []) sets e = let h = search_single b true p x in absurd (cc)
seen-make_room b c p q v i f (x ∷ y ∷ r) sets e = elim (visit b p x y r) [
  | hit _ h ↦ absurd (cc)
  | gap _ _ h ↦ absurd (cc)
  | top held w h ↦
      let k : i ≡ 0 = cc in
      let (kp, ke) = sets x in rw (k, kp, ke, seen-shift_down c q x (y ∷ r)) refl
  | pass held w h ↦
      let g = further_before (search b true p (y ∷ r)) i (sym h ∙ e) in
      let rest = seen-make_room b c p q v g.0 f (y ∷ r) sets g.2 in
      rw (g.1, rest)
        (if_swap p q x.price (some v) (some (entry x)) (seen q (but_last (y ∷ r)))
          (rank-apart b x.price p w))
]

-- The levels are the first ones and the last one.
pub seen-but_last :
    (q : ℤ) (xs : List DepthLevel) (l : DepthLevel)
    → last? xs ≡ some l
    → seen q xs ≡ or_else (seen q (but_last xs)) (if l.price ==ℤ q then some (entry l) else none)
seen-but_last q [] l e = absurd (cc)
seen-but_last q (x ∷ []) l e = let same : x ≡ l = cc in rw same refl
seen-but_last q (x ∷ y ∷ r) l e = elim (Bool-cases (x.price ==ℤ q)) [
  | inl t ↦ rw t refl
  | inr n ↦ rw n (seen-but_last q (y ∷ r) l e)
]

-- Where the search finds nothing, no level but perhaps the last one is at the price.
pub unseen_end :
    (b : Bool) (p : ℤ) (xs : List DepthLevel)
    → search b true p xs ≡ at_end
    → seen p (but_last xs) ≡ none
unseen_end b p [] e = refl
unseen_end b p (x ∷ []) e = refl
unseen_end b p (x ∷ y ∷ r) e = elim (visit b p x y r) [
  | hit _ h ↦ absurd (cc)
  | gap _ _ h ↦ absurd (cc)
  | top _ _ h ↦ absurd (cc)
  | pass held w h ↦
      let rest = further_end (search b true p (y ∷ r)) (sym h ∙ e) in
      rw (rank-apart b x.price p w) (unseen_end b p (y ∷ r) rest)
]
