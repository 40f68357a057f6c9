-- ===== src/Depth/Spilled.antt =====
-- The last level between the visible and the excess levels, and cases on what the two hold.
use order_book_sketch.Common.{
  ℕ, Bool, true, false, ℤ, pos, ◌==ℤ◌, List, [], ◌∷◌, Option, none, some, ◌≡◌, ◌≢◌, refl, sym,
  arith, if◌then◌else◌, last?, Bool-cases, Option-cases, inl, inr, ==ℤ→eq,
}
use mathlib.Core.Option
use order_book_sketch.FlatMap
use order_book_sketch.FlatMap.Laws.{lookup, IsDescending, lookup-insert}
use order_book_sketch.Depth.{rank, DepthSide, spill}
use order_book_sketch.Depth.Level.{DepthLevel, init, assign, new_level}
use order_book_sketch.Depth.Find.{spill_vacant, spill_held, spill_empty}
use order_book_sketch.Depth.Lookup.{entry, held_ne, seen}
use order_book_sketch.Depth.Shifted.{but_last, or_else, seen-but_last}
use order_book_sketch.Depth.Held.{held, in_excess_at, rank_eq}

pub last_case : (a x d : Option (ℤ × ℤ)) → or_else a (or_else x d) ≡ or_else (or_else a x) d
last_case none x d = refl
last_case (some v) x d = refl

pub spilled_case :
    (t : Bool) (a : Option (ℤ × ℤ)) (l : DepthLevel) (m : Option DepthLevel)
    → or_else a (Option.map entry (if t then some l else m))
      ≡ or_else (or_else a (if t then some (entry l) else none)) (Option.map entry m)
spilled_case true none l m = refl
spilled_case true (some v) l m = refl
spilled_case false none l m = refl
spilled_case false (some v) l m = refl

pub last?-none : (xs : List DepthLevel) → last? xs ≡ none → xs ≡ []
last?-none [] e = refl
last?-none (x ∷ []) e = absurd (cc)
last?-none (x ∷ y ∷ r) e = let rest = last?-none (y ∷ r) e in absurd (cc)

-- The last level is held among the excess levels once it is not visible any more.
pub spill-held :
    (b : Bool) (q : ℤ) (s : DepthSide)
    → q ≢ pos 0
    → IsDescending s.excess
    → ((l : DepthLevel)
        → last? s.levels ≡ some l
        → l.price ≢ pos 0
        → lookup (rank b l.price) s.excess ≡ none)
    → or_else (seen q (but_last s.levels)) (in_excess_at b q (spill b s).excess) ≡ held b q s
spill-held b q s nq d apart = elim (Option-cases (last? s.levels)) [
  | inl e ↦ rw (spill_empty b s e, last?-none s.levels e) refl
  | inr (l, e) ↦ elim (Bool-cases (l.price ==ℤ pos 0)) [
    | inl z ↦
        let off : (l.price ==ℤ q) ≡ false = held_ne l.price q (==ℤ→eq _ _ z) nq in
        rw (spill_vacant b s l e z, seen-but_last q s.levels l e, off)
          (last_case (seen q (but_last s.levels)) none (in_excess_at b q s.excess))
    | inr nz ↦
        let none_yet = apart l e (λ h. ground (arith, nz, h)) in
        let l' = assign (init (pos 0) true new_level) l in
        rw
          (
            spill_held b s l e nz,
            seen-but_last q s.levels l e,
            lookup-insert (rank b l.price) (rank b q) l' s.excess d,
            none_yet,
            rank_eq b l.price q,
          )
          (spilled_case (l.price ==ℤ q) (seen q (but_last s.levels)) l'
            (lookup (rank b q) s.excess))
  ]
]

pub ne_test : (l p : ℤ) → l ≢ p → (l ==ℤ p) ≡ false
ne_test l p ne = elim (Bool-cases (l ==ℤ p)) [ inl e ↦ absurd (ne (==ℤ→eq l p e)) | inr n ↦ n ]

-- An entry made visible goes before whatever the excess levels hold.
pub visible_case :
    (t : Bool) (v : ℤ × ℤ) (a d g : Option (ℤ × ℤ))
    → g ≡ some v
    → or_else (if t then some v else a) d ≡ (if t then g else or_else a d)
visible_case true v a d g e = sym e
visible_case false v a d g e = refl

pub excess_case :
    (t : Bool) (v : ℤ × ℤ) (a d g : Option (ℤ × ℤ))
    → g ≡ some v
    → (t ≡ true → a ≡ none)
    → or_else a (if t then some v else d) ≡ (if t then g else or_else a d)
excess_case true v a d g e h = rw (h refl) (sym e)
excess_case false v a d g e h = refl

pub found_there :
    (k : ℤ) (m : List (ℤ × DepthLevel)) (j : ℕ) → FlatMap.find k m ≡ some j → lookup k m ≢ none
unfolding FlatMap.find lookup
found_there k [] j e h = cc
found_there k ((i, v) ∷ m) j e h = elim (Bool-cases (i ==ℤ k)) [
  | inl t ↦ let z = rw t at h in cc
  | inr t ↦
      let z = rw t at h in
      let y = rw t at e in
      elim (Option-cases (FlatMap.find k m)) [
        | inl o ↦ let w = rw o at y in cc
        | inr (j', o) ↦ found_there k m j' o z
      ]
]

pub find-lookup :
    (k : ℤ) (m : List (ℤ × DepthLevel)) (j : ℕ)
    → FlatMap.find k m ≡ some j
    → (l : DepthLevel) × (lookup k m ≡ some l)
find-lookup k m j e = elim (Option-cases (lookup k m)) [
  | inr (l, h) ↦ (l, h)
  | inl h ↦ absurd (found_there k m j e h)
]

pub if_drop :
    (t : Bool) (a l : DepthLevel) (m : Option DepthLevel)
    → (if t then some a else if t then some l else m) ≡ (if t then some a else m)
if_drop true a l m = refl
if_drop false a l m = refl

pub map_if :
    (t : Bool) (l : DepthLevel) (m : Option DepthLevel)
    → Option.map entry (if t then some l else m)
      ≡ (if t then some (entry l) else Option.map entry m)
map_if true l m = refl
map_if false l m = refl
